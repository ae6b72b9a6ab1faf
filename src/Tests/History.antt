-- ===== src/Tests/History.antt =====
-- The history of a student with one submission in memory.
use autograder_server.Repository.SubmissionReport.{get_submission_brief_report, get_brief_id_key}
use autograder_server.Repository.Sequencer.{request_next_batch, get_next_id}
use autograder_server.Repository.Decimal.{decimal}
use autograder_server.Repository.Prefix.{
  big_endian_uint64, uint64_to_bytes, key_upper_bound, prefix_iter_options, bytes_lt,
}
use autograder_server.Service.Model.{done}
use autograder_server.Repository.Users.{get_user_by_id, get_user_id_key}
use autograder_server.Repository.Pebble.{Entries}
use autograder_server.Hub.Model.{running}
use autograder_server.Service.History.{
  submitters_of, newest_first, history_loop, get_submission_history, SubmissionInfo,
}
use autograder_server.Repository.Submissions.{
  get_submission, get_submission_key, get_user_assignment_key, create_submission,
  get_user_assignment_prefix, get_submissions_by_user_and_assignment,
}
use autograder_server.Base.{bytes_eq, refl, All, ◌≡◌, List, ℕ, ◌∷◌, [], some, refl}
use autograder_server.Tests.Submitting.{created_7}
use autograder_server.Service.History.Listing.{
  IsInfo, get_submission_history-listed, NewestFirst, count,
}
use autograder_server.Tests.Codecs.{member_codec, user_codec, submission_codec}
use autograder_server.Tests.Batch.{batches, counter_codec}
use autograder_server.Tests.Store.{entries_in, brief_codec, in_memory}

-- Submission 1 of user 3 with the name x and the address y, and no brief of it.
abbrev with_user : Entries
with_user = (get_user_id_key 3, 120 ∷ 121 ∷ 9 ∷ []) ∷ created_7.0

abbrev info_1 : SubmissionInfo
info_1 = record {
  submission_id = 1;
  submitted_at = some 90000000000;
  submitters = record { user_id = 3; username = 120 ∷ []; nickname = []; student_id = [] } ∷ [];
  score = 0;
  max_score = 0;
  status = running;
}

is_listed :
    get_submission_history in_memory brief_codec counter_codec user_codec member_codec
      submission_codec batches with_user 3 5
    ≡ done (info_1 ∷ [])
unfolding get_submission_history get_submissions_by_user_and_assignment history_loop newest_first
    entries_in bytes_lt get_user_id_key prefix_iter_options get_user_assignment_prefix
    key_upper_bound decimal create_submission get_next_id get_user_assignment_key uint64_to_bytes
    get_submission_key get_submission bytes_eq big_endian_uint64 request_next_batch get_brief_id_key
    get_submission_brief_report get_user_by_id submitters_of
is_listed = refl

get_submission_history-listed_example :
    (ids : List ℕ) × (get_submissions_by_user_and_assignment in_memory counter_codec
        submission_codec batches with_user 3 5
      ≡ some ids)
    × ((x : ℕ) → count x (1 ∷ []) ≡ count x ids)
    × NewestFirst (1 ∷ [])
    × All
        (IsInfo in_memory brief_codec counter_codec user_codec member_codec submission_codec batches
          with_user)
        (info_1 ∷ [])
get_submission_history-listed_example =
    get_submission_history-listed in_memory brief_codec counter_codec user_codec member_codec
      submission_codec batches with_user 3 5 (info_1 ∷ []) is_listed
