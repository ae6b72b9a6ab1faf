-- ===== src/Repository/Messages.antt =====
-- The messages of proto/model.proto that the repositories store and pkg/grpc reads. An absent
-- timestamp is none.
use autograder_server.Base.{some, none, ℕ, Bool, Option, List}

pub data CourseRole : Type 0 where
  student ta instructor reader : CourseRole

pub record CourseMember : Type 0 where
  pub user_id : ℕ
  pub role : CourseRole
  pub course_id : ℕ

pub record SubmissionLimitConfig : Type 0 where
  pub total : ℕ
  pub frequency : ℕ
  pub period : ℕ

-- The fields that pkg/grpc reads.
pub record Assignment : Type 0 where
  pub course_id : ℕ
  pub release_date : Option ℕ
  pub due_date : Option ℕ
  pub submission_limit : Option SubmissionLimitConfig
  pub upload_limit : ℕ

pub record Submission : Type 0 where
  pub assignment_id : ℕ
  pub submitted_at : Option ℕ
  pub submitters : List ℕ
  pub path : List ℕ
  pub files : List (List ℕ)
  pub leaderboard_name : List ℕ
  pub user_id : ℕ

pub record ManifestMetadata : Type 0 where
  pub created_at : Option ℕ
  pub user_id : ℕ
  pub assignment_id : ℕ
  pub upload_limit : ℕ

pub record ManifestFileMetadata : Type 0 where
  pub manifest_id : ℕ
  pub filesize : ℕ

pub record VerificationCodeMetadata : Type 0 where
  pub code : List ℕ
  pub issued_at : Option ℕ
  pub expired_at : Option ℕ

pub record User : Type 0 where
  pub username : List ℕ
  pub password : List ℕ
  pub email : List ℕ
  pub github_id : List ℕ
  pub nickname : List ℕ
  pub student_id : List ℕ
  pub created_at : Option ℕ
  pub is_admin : Bool

pub record Course : Type 0 where
  pub name : List ℕ
  pub short_name : List ℕ
  pub term : List ℕ
  pub description : List ℕ
  pub join_code : List ℕ
  pub allows_join : Bool

-- The epoch for an absent timestamp.
abbrev pub as_time : Option ℕ → ℕ
as_time none = 0
as_time (some t) = t
