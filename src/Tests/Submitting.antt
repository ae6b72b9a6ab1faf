-- ===== src/Tests/Submitting.antt =====
-- Submissions of a student in memory.
use autograder_server.Service.Model.{done, Outcome, done}
use autograder_server.Repository.Decimal.{decimal}
use autograder_server.Repository.SubmissionReport.{get_brief_id_key, update_submission_brief_report}
use autograder_server.Repository.Submissions.Listed.{create_submission-listed}
use autograder_server.Repository.Prefix.{
  big_endian_uint64, uint64_to_bytes, bytes_lt, key_upper_bound, prefix_iter_options,
}
use autograder_server.Service.Submitting.Limits.{check_submission_limit_iff, in_window}
use autograder_server.Repository.Manifest.{
  get_files_prefix, delete_manifest, get_files_in_manifest, get_file_key,
}
use autograder_server.Tests.Uploads.{file_codec, manifest_codec}
use autograder_server.Tests.Codecs.{member_codec, user_codec, submission_codec, member_raw}
use autograder_server.Tests.Batch.{batches, counter_codec}
use autograder_server.Tests.Store.{brief_codec, entries_in, in_memory}
use autograder_server.Repository.Users.{get_course_prefix, get_course_member, get_course_key}
use autograder_server.Service.Submitting.{
  window_count, validate_loop, or_caller, validate_submitters, check_submission_limit,
}
use autograder_server.Service.Submitting.Creating.Accepted.{
  create_submission_checked-IsAccepted, IsAccepted,
}
use autograder_server.Repository.Messages.{student, Submission, SubmissionLimitConfig}
use autograder_server.Repository.Pebble.{Entries}
use autograder_server.Service.Submitting.Validation.{validate_submitters-Decided, Decided}
use autograder_server.Service.Submitting.Creating.{
  get_manifest_path, check_all, limits_of, CreateSubmissionResponse, Caller,
  CreateSubmissionRequest, create_submission_checked,
}
use autograder_server.Repository.Sequencer.{request_next_batch, get_next_id, KvSequencer}
use autograder_server.Repository.Submissions.{
  get_user_assignment_prefix, get_user_assignment_key, get_submission_key, get_submission,
  get_submissions_by_user_and_assignment, create_submission,
}
use autograder_server.Repository.Stored.{created, created, Created, created}
use autograder_server.Base.{
  List, List, bytes_eq, contains, ◌<◌, length, ◌⊎◌, ◌↔◌, codes, if◌then◌else◌, ◌||◌, ◌==◌, Bool,
  Option, ℕ, arith, ◌∷◌, [], some, none, false, true, refl, ◌≡◌,
}

abbrev one_or_two : ℕ → Bool
one_or_two u = u == 1 || u == 2

validate_submitters-Decided_example :
    Decided one_or_two
      (or_caller one_or_two (2 ∷ 1 ∷ 2 ∷ []) 1)
      1
      false
      (validate_submitters one_or_two (2 ∷ 1 ∷ 2 ∷ []) 1 false)
validate_submitters-Decided_example =
    validate_submitters-Decided one_or_two (2 ∷ 1 ∷ 2 ∷ []) 1 false

abbrev pub recent : Submission
recent = record {
  assignment_id = 5;
  submitted_at = some 90000000000;
  submitters = 3 ∷ [];
  path = [];
  files = codes "a" ∷ [];
  leaderboard_name = codes "A";
  user_id = 3;
}

abbrev only_seven : ℕ → Option Submission
only_seven id = if id == 7 then some recent else none

abbrev only_id : List ℕ
only_id = 7 ∷ []

abbrev two_in_ten_minutes : SubmissionLimitConfig
two_in_ten_minutes = record { total = 5; frequency = 2; period = 10 }

check_submission_limit_iff_example :
    (check_submission_limit only_seven (some only_id) two_in_ten_minutes 100000000000 ≡ none) ↔ (
      ((two_in_ten_minutes.total ≡ 0) ⊎ (length only_id < 5))
      × ((two_in_ten_minutes.frequency ≡ 0)
          ⊎ (two_in_ten_minutes.period ≡ 0)
          ⊎ (in_window only_seven only_id 10 100000000000 < 2)))
check_submission_limit_iff_example =
    check_submission_limit_iff only_seven only_id two_in_ten_minutes 100000000000
      ((recent, refl), tt)

abbrev sequencer_1 : KvSequencer
sequencer_1 = record { key = codes "submission:next_id"; next = 1; limit = 11 }

-- User 3 is a student of course 2, and manifest 4 has a file.
abbrev prepared : Entries
prepared =
    (get_course_key 3 2, member_raw (record { user_id = 3; role = student; course_id = 2 }))
    ∷ (get_file_key 4 (codes "a"), 4 ∷ 10 ∷ [])
    ∷ []

abbrev request_4 : CreateSubmissionRequest
request_4 = record { assignment_id = 5; manifest_id = 4; submitters = [] }

abbrev caller_3 : Caller
caller_3 = record {
  user = record { user_id = 3; username = codes "ada"; nickname = codes "A"; is_admin = false };
  role = student;
  course_id = 2;
  assignment = record {
    course_id = 2;
    release_date = some 10;
    due_date = some 100;
    submission_limit = some two_in_ten_minutes;
    upload_limit = 1000;
  };
}

abbrev response_1 : CreateSubmissionResponse
response_1 = record { submission_id = 1; files = codes "a" ∷ [] }

abbrev answered_1 : Entries × KvSequencer × Outcome CreateSubmissionResponse
answered_1 =
    create_submission_checked in_memory counter_codec manifest_codec file_codec user_codec
      member_codec submission_codec brief_codec batches prepared sequencer_1 request_4 caller_3 50

is_done : answered_1.2 ≡ done response_1
unfolding create_submission_checked validate_submitters validate_loop limits_of check_all
    check_submission_limit window_count get_files_in_manifest get_course_member
    get_submissions_by_user_and_assignment create_submission get_next_id request_next_batch
    update_submission_brief_report delete_manifest get_course_key get_course_prefix get_file_key
    get_files_prefix get_submission_key get_user_assignment_key get_user_assignment_prefix
    get_brief_id_key get_manifest_path entries_in prefix_iter_options key_upper_bound bytes_lt
    bytes_eq uint64_to_bytes decimal big_endian_uint64
is_done = refl

create_submission_checked-IsAccepted_example :
    IsAccepted in_memory counter_codec manifest_codec file_codec user_codec member_codec
      submission_codec brief_codec batches prepared answered_1.0 sequencer_1 request_4 caller_3 50
      response_1
create_submission_checked-IsAccepted_example =
    create_submission_checked-IsAccepted in_memory counter_codec manifest_codec file_codec
      user_codec member_codec submission_codec brief_codec batches prepared sequencer_1 request_4
      caller_3 50 response_1 is_done

abbrev pub created_7 : Entries × KvSequencer × Created
created_7 = create_submission in_memory counter_codec submission_codec batches [] sequencer_1 recent

is_created : created_7.2 ≡ created 1
unfolding create_submission get_next_id
is_created = refl

is_read :
    get_submissions_by_user_and_assignment in_memory counter_codec submission_codec batches
      created_7.0 3 5
    ≡ some (1 ∷ [])
unfolding get_submissions_by_user_and_assignment create_submission get_next_id get_submission_key
    get_user_assignment_key get_user_assignment_prefix entries_in prefix_iter_options
    key_upper_bound bytes_lt bytes_eq uint64_to_bytes decimal big_endian_uint64
is_read = refl

create_submission-listed_example :
    (get_submission in_memory counter_codec submission_codec batches created_7.0 1 ≡ some recent)
    × (contains 1 (1 ∷ []) ≡ true)
create_submission-listed_example =
    create_submission-listed in_memory counter_codec submission_codec batches [] sequencer_1 recent
      1 3 (1 ∷ []) is_created (omega arith) refl is_read
