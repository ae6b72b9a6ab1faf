-- ===== src/Service/Submitting/Creating.antt =====
-- `CreateSubmission` of pkg/grpc/submission.go.
pub mod Queued
pub mod Accepted
use autograder_server.Repository.SubmissionReport.{update_submission_brief_report}
use autograder_server.Repository.Submissions.{
  create_submission, get_submissions_by_user_and_assignment, get_submission,
}
use autograder_server.Service.Access.{is_staff}
use autograder_server.Repository.Manifest.{delete_manifest, get_files_in_manifest}
use autograder_server.Repository.Sequencer.{KvSequencer}
use autograder_server.Repository.Users.{get_course_member}
use autograder_server.Repository.Batch.{Batches}
use autograder_server.Hub.Model.{queued, SubmissionBriefReport}
use autograder_server.Repository.Merger.{Mergeable}
use autograder_server.Repository.Decimal.{decimal}
use autograder_server.Repository.Codec.{Codec}
use autograder_server.Repository.Messages.{
  SubmissionLimitConfig, Submission, CourseMember, User, ManifestFileMetadata, ManifestMetadata,
  Assignment, CourseRole,
}
use autograder_server.Repository.Pebble.{Pebble}
use autograder_server.Repository.Stored.{created, created, Created, create_error, created}
use autograder_server.Service.Model.{
  done, code_create_submission, code_manifest_files, code_update_brief, internal, invalid_argument,
  Outcome, Code, UserTokenPayload, refused, done,
}
use autograder_server.Service.Submitting.{
  submitters_are, validate_submitters, check_submission_limit, LimitError, Submitters, limit_error,
  submitters_refused, submitters_are,
}
use autograder_server.Base.{
  if◌then◌else◌, ◌++◌, codes, Bool, Option, List, ℕ, ◌∷◌, [], some, none, false, true, ◌≡◌,
}

pub record CreateSubmissionRequest : Type 0 where
  pub assignment_id : ℕ
  pub manifest_id : ℕ
  pub submitters : List ℕ

-- The context values that the guards have set.
pub record Caller : Type 0 where
  pub user : UserTokenPayload
  pub role : CourseRole
  pub course_id : ℕ
  pub assignment : Assignment

pub record CreateSubmissionResponse : Type 0 where
  pub submission_id : ℕ
  pub files : List (List ℕ)

unfoldable pub get_manifest_path : ℕ → List ℕ
get_manifest_path manifest_id = codes "uploads/manifests/" ++ decimal manifest_id

abbrev pub queued_brief : SubmissionBriefReport
queued_brief = record {
  score = 0;
  max_score = 0;
  exit_code = 0;
  internal_error = 0;
  status = queued;
}

module _ (p : Pebble) (cm : Codec Mergeable) (md : Codec ManifestMetadata)
    (fm : Codec ManifestFileMetadata) (us : Codec User) (ms : Codec CourseMember)
    (sc : Codec Submission) (bc : Codec SubmissionBriefReport) (b : Batches cm p) where
  open p use {Db}

  abbrev pub is_in_course : Db → ℕ → ℕ → Bool
  is_in_course d course user = elim (get_course_member p cm us ms b d user course) [
    | none ↦ false
    | some m ↦ true
  ]

  abbrev pub check_one : Db → ℕ → SubmissionLimitConfig → ℕ → ℕ → Option LimitError
  check_one d assignment limit now user =
      check_submission_limit (get_submission p cm sc b d)
        (get_submissions_by_user_and_assignment p cm sc b d user assignment) limit now

  -- The first submitter who is over a limit.
  unfoldable pub check_all : Db → ℕ → SubmissionLimitConfig → ℕ → List ℕ → Option LimitError
  check_all d assignment limit now [] = none
  check_all d assignment limit now (user ∷ r) = elim (check_one d assignment limit now user) [
    | some e ↦ some e
    | none ↦ check_all d assignment limit now r
  ]

  unfoldable pub limits_of :
      Db → ℕ → Option SubmissionLimitConfig → Bool → ℕ → List ℕ → Option LimitError
  unfolding check_all
  limits_of d assignment none staff now submitters = none
  limits_of d assignment (some limit) staff now submitters =
      if staff then none else check_all d assignment limit now submitters

  -- After the brief, errors are only logged: of the manifest's deletion, of the marker file, and of
  -- the run, which is another thread.
  abbrev respond :
      Db × Bool
      → KvSequencer
      → ℕ
      → ℕ
      → List (List ℕ)
      → Db × KvSequencer × Outcome CreateSubmissionResponse
  respond (d, false) q manifest id files = (d, q, refused internal code_update_brief)
  respond (d, true) q manifest id files = (
    (delete_manifest p cm md fm b d manifest).0,
    q,
    done (record { submission_id = id; files = files }),
  )

  abbrev briefed :
      Db × KvSequencer × Created
      → ℕ
      → List (List ℕ)
      → Db × KvSequencer × Outcome CreateSubmissionResponse
  briefed (d, q, create_error) manifest files = (d, q, refused internal code_create_submission)
  briefed (d, q, created id) manifest files =
      respond (update_submission_brief_report p bc d id queued_brief) q manifest id files

  abbrev pub new_submission :
      CreateSubmissionRequest → UserTokenPayload → List ℕ → List (List ℕ) → ℕ → Submission
  new_submission req user submitters files now = record {
    assignment_id = req.assignment_id;
    submitted_at = some now;
    submitters = submitters;
    path = get_manifest_path req.manifest_id;
    files = files;
    leaderboard_name = user.nickname;
    user_id = user.user_id;
  }

  abbrev with_files :
      Db
      → KvSequencer
      → CreateSubmissionRequest
      → UserTokenPayload
      → List ℕ
      → ℕ
      → Option (List (List ℕ))
      → Db × KvSequencer × Outcome CreateSubmissionResponse
  with_files d q req user submitters now none = (d, q, refused invalid_argument code_manifest_files)
  with_files d q req user submitters now (some []) =
      (d, q, refused invalid_argument code_manifest_files)
  with_files d q req user submitters now (some (f ∷ fs)) =
      briefed (create_submission p cm sc b d q (new_submission req user submitters (f ∷ fs) now))
        req.manifest_id (f ∷ fs)

  abbrev within_limits :
      Db
      → KvSequencer
      → CreateSubmissionRequest
      → UserTokenPayload
      → List ℕ
      → ℕ
      → Option LimitError
      → Db × KvSequencer × Outcome CreateSubmissionResponse
  within_limits d q req user submitters now (some (limit_error code error)) =
      (d, q, refused code error)
  within_limits d q req user submitters now none =
      with_files d q req user submitters now (get_files_in_manifest p cm md fm b d req.manifest_id)

  abbrev validated :
      Db
      → KvSequencer
      → CreateSubmissionRequest
      → Caller
      → ℕ
      → Submitters
      → Db × KvSequencer × Outcome CreateSubmissionResponse
  validated d q req caller now (submitters_refused code error) = (d, q, refused code error)
  validated d q req caller now (submitters_are submitters) =
      within_limits d q req caller.user submitters now (
        limits_of d req.assignment_id caller.assignment.submission_limit (is_staff caller.role) now
          submitters)

  -- All of a call happens at one time.
  unfoldable pub create_submission_checked :
      Db
      → KvSequencer
      → CreateSubmissionRequest
      → Caller
      → ℕ
      → Db × KvSequencer × Outcome CreateSubmissionResponse
  create_submission_checked d q req caller now = validated d q req caller now (
      validate_submitters (is_in_course d caller.course_id) req.submitters caller.user.user_id
        (is_staff caller.role))
