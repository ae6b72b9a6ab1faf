-- ===== src/Service/History.antt =====
-- pkg/grpc/submission.go: the reports of submissions and the history that users and staff read.
pub mod Listing
use autograder_server.Hub.Model.{
  SubmissionStatus, SubmissionBriefReport, queued, aborted, finished, cancelled, running,
  cancelling, failed,
}
use autograder_server.Repository.Batch.{Batches}
use autograder_server.Repository.Codec.{Codec}
use autograder_server.Repository.Merger.{Mergeable}
use autograder_server.Repository.Messages.{Submission, User, CourseMember}
use autograder_server.Repository.Pebble.{Pebble}
use autograder_server.Repository.SubmissionReport.{
  get_submission_brief_report, get_submission_report,
}
use autograder_server.Repository.Submissions.{
  get_submissions_by_user_and_assignment, get_submission,
}
use autograder_server.Repository.Users.{get_user_by_id}
use autograder_server.Service.Model.{
  Outcome, done, refused, internal, not_found, code_not_found, code_queued, code_running,
  code_cancelled, code_cancelling, code_report_not_found, code_get_submission, code_get_user,
}
use autograder_server.Base.{ℕ, List, [], ◌∷◌, Option, none, some, ltb, if◌then◌else◌}

pub record Submitter : Type 0 where
  pub user_id : ℕ
  pub username : List ℕ
  pub nickname : List ℕ
  pub student_id : List ℕ

-- The history leaves the pending rank unset.
pub record SubmissionInfo : Type 0 where
  pub submission_id : ℕ
  pub submitted_at : Option ℕ
  pub submitters : List Submitter
  pub score : ℕ
  pub max_score : ℕ
  pub status : SubmissionStatus

abbrev insert_newer : ℕ → List ℕ → List ℕ
insert_newer a [] = a ∷ []
insert_newer a (b ∷ r) = if ltb a b then b ∷ insert_newer a r else a ∷ b ∷ r

-- The order of `slices.SortFunc`; equal ids are the same.
unfoldable pub newest_first : List ℕ → List ℕ
newest_first [] = []
newest_first (a ∷ r) = insert_newer a (newest_first r)

-- The score, the maximum and the status of a brief; without one the submission counts as running.
abbrev pub graded : Option SubmissionBriefReport → ℕ × ℕ × SubmissionStatus
graded none = (0, 0, running)
graded (some brief) = (brief.score, brief.max_score, brief.status)

module _ (p : Pebble) (bc : Codec SubmissionBriefReport) where
  open p use {Db}

  module _ {R : Type 0} (rc : Codec R) where
    abbrev full_report : Option R → SubmissionStatus → Outcome (R × SubmissionStatus)
    full_report none status = refused not_found code_report_not_found
    full_report (some report) status = done (report, status)

    abbrev report_of : Db → ℕ → SubmissionStatus → Outcome (R × SubmissionStatus)
    report_of d id queued = refused not_found code_queued
    report_of d id running = refused not_found code_running
    report_of d id cancelled = refused not_found code_cancelled
    report_of d id cancelling = refused not_found code_cancelling
    report_of d id finished = full_report (get_submission_report p rc d id) finished
    report_of d id failed = full_report (get_submission_report p rc d id) failed
    report_of d id aborted = full_report (get_submission_report p rc d id) aborted

    -- `GetSubmissionReport`; an error of the read of the brief counts as none.
    unfoldable pub shown_report : Db → ℕ → Outcome (R × SubmissionStatus)
    shown_report d id = elim (get_submission_brief_report p bc d id) [
      | none ↦ refused not_found code_not_found
      | some brief ↦ report_of d id brief.status
    ]

  module _ (cm : Codec Mergeable) (us : Codec User) (ms : Codec CourseMember)
      (sc : Codec Submission) (b : Batches cm p) where
    abbrev submitter_of : ℕ → User → Submitter
    submitter_of id user = record {
      user_id = id;
      username = user.username;
      nickname = user.nickname;
      student_id = user.student_id;
    }

    -- none is an error of `GetUserById`.
    abbrev cons_submitter : ℕ → Option User → Option (List Submitter) → Option (List Submitter)
    cons_submitter id none rest = none
    cons_submitter id (some user) none = none
    cons_submitter id (some user) (some others) = some (submitter_of id user ∷ others)

    unfoldable pub submitters_of : Db → List ℕ → Option (List Submitter)
    submitters_of d [] = some []
    submitters_of d (id ∷ r) =
        cons_submitter id (get_user_by_id p cm us ms b d id) (submitters_of d r)

    abbrev info_of : ℕ → Submission → List Submitter → ℕ × ℕ × SubmissionStatus → SubmissionInfo
    info_of id s submitters (score, max_score, status) = record {
      submission_id = id;
      submitted_at = s.submitted_at;
      submitters = submitters;
      score = score;
      max_score = max_score;
      status = status;
    }

    abbrev cons_info :
        SubmissionInfo → Outcome (List SubmissionInfo) → Outcome (List SubmissionInfo)
    cons_info info (done infos) = done (info ∷ infos)
    cons_info info (refused code error) = refused code error

    abbrev with_submitters :
        Db
        → ℕ
        → Submission
        → Option (List Submitter)
        → Outcome (List SubmissionInfo)
        → Outcome (List SubmissionInfo)
    with_submitters d id s none rest = refused internal code_get_user
    with_submitters d id s (some submitters) rest =
        cons_info (info_of id s submitters (graded (get_submission_brief_report p bc d id))) rest

    abbrev with_submission :
        Db → ℕ → Option Submission → Outcome (List SubmissionInfo) → Outcome (List SubmissionInfo)
    with_submission d id none rest = refused internal code_get_submission
    with_submission d id (some s) rest = with_submitters d id s (submitters_of d s.submitters) rest

    unfoldable pub history_loop : Db → List ℕ → Outcome (List SubmissionInfo)
    history_loop d [] = done []
    history_loop d (id ∷ r) =
        let rest = history_loop d r in with_submission d id (get_submission p cm sc b d id) rest

    abbrev listed_history : Db → Option (List ℕ) → Outcome (List SubmissionInfo)
    listed_history d none = refused not_found code_not_found
    listed_history d (some ids) = history_loop d (newest_first ids)

    unfoldable pub get_submission_history : Db → ℕ → ℕ → Outcome (List SubmissionInfo)
    get_submission_history d user assignment =
        listed_history d (get_submissions_by_user_and_assignment p cm sc b d user assignment)
