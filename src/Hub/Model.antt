-- ===== src/Hub/Model.antt =====
-- The messages of proto/model.proto and proto/grader.proto that the hub reads.
use autograder_server.Base.{Bool, Option, List, ℕ}

pub data SubmissionStatus : Type 0 where
  queued aborted finished cancelled running cancelling failed : SubmissionStatus

-- An int64 is its 64-bit pattern.
pub record SubmissionBriefReport : Type 0 where
  pub score : ℕ
  pub max_score : ℕ
  pub exit_code : ℕ
  pub internal_error : ℕ
  pub status : SubmissionStatus

pub record PendingRank : Type 0 where
  pub rank : ℕ
  pub total : ℕ

pub record DockerGraderMetadata : Type 0 where
  pub submission_id : ℕ
  pub container_id : List ℕ
  pub started : Bool
  pub created : Bool

-- `R` stands for SubmissionReport, which the hub does not look into. none is a nil message.
pub record GradeReport (R : Type 0) : Type 0 where
  pub report : Option R
  pub brief : Option SubmissionBriefReport
  pub docker_metadata : Option DockerGraderMetadata
  pub pending_rank : Option PendingRank

-- Of the submission and the grading config that go with a request the hub reads the tags alone;
-- a nil config has none.
pub record GradeRequest : Type 0 where
  pub submission_id : ℕ
  pub tags : List (List ℕ)
  pub is_cancel : Bool
  pub is_stream_log : Bool
  pub request_id : List ℕ
