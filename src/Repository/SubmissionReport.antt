-- ===== src/Repository/SubmissionReport.antt =====
-- pkg/repository/submission_report.go: the report of a submission, its brief, and the mark of a
-- submission whose grading has not ended.
pub mod RoundTrip
use autograder_server.Repository.Stored.{put_message, read_message}
use autograder_server.Base.{
  drop, codes, length, ◌++◌, Bool, Option, List, ℕ, ◌∷◌, [], some, none, false,
}
use autograder_server.Repository.Prefix.{uint64_to_bytes, big_endian_uint64, prefix_iter_options}
use autograder_server.Repository.Decimal.{decimal}
use autograder_server.Repository.Pebble.{failed, failed, not_found, found, Pebble, Got, Entries}
use autograder_server.Repository.Codec.{Codec}

pub record UnfinishedSubmission : Type 0 where
  pub submission_id : ℕ
  pub assignment_id : ℕ

unfoldable pub get_id_key : ℕ → List ℕ
get_id_key id = codes "submission_report:id:" ++ decimal id

unfoldable pub get_brief_id_key : ℕ → List ℕ
get_brief_id_key id = codes "submission_report:brief:" ++ decimal id

unfoldable pub get_unfinished_prefix : List ℕ
get_unfinished_prefix = codes "submission:unfinished:"

unfoldable pub get_unfinished_key : ℕ → List ℕ
unfolding get_unfinished_prefix
get_unfinished_key id = get_unfinished_prefix ++ uint64_to_bytes id

module _ (p : Pebble) where
  open p use {Db, get, put, delete, scan}

  unfoldable pub mark_unfinished_submission : Db → ℕ → ℕ → Db × Bool
  mark_unfinished_submission d id assignment_id =
      put d (get_unfinished_key id) (uint64_to_bytes assignment_id)

  unfoldable pub delete_unfinished_submission : Db → ℕ → Db × Bool
  delete_unfinished_submission d id = delete d (get_unfinished_key id)

  unfoldable pub delete_submission_report : Db → ℕ → Db × Bool
  delete_submission_report d id = delete d (get_id_key id)

  abbrev unfinished : ℕ → Entries → List UnfinishedSubmission
  unfinished prefix_len [] = []
  unfinished prefix_len ((key, value) ∷ r) =
      record {
        submission_id = big_endian_uint64 (drop prefix_len key);
        assignment_id = big_endian_uint64 value;
      }
      ∷ unfinished prefix_len r

  -- none is an iterator error.
  unfoldable pub get_unfinished_submissions : Db → Option (List UnfinishedSubmission)
  get_unfinished_submissions d =
      let prefix = get_unfinished_prefix in
      elim (scan d (prefix_iter_options prefix)) [
        | none ↦ none
        | some entries ↦ some (unfinished (length prefix) entries)
      ]

  -- The two kinds of reports are written and read alike, each with its codec; none is an error.
  module _ {A : Type 0} (c : Codec A) where
    unfoldable pub update_submission_report : Db → ℕ → A → Db × Bool
    update_submission_report d id report = put_message p c d (get_id_key id) (c.marshal report)

    unfoldable pub get_submission_report : Db → ℕ → Option A
    get_submission_report d id = read_message p c (get d (get_id_key id))

    unfoldable pub update_submission_brief_report : Db → ℕ → A → Db × Bool
    update_submission_brief_report d id brief =
        put_message p c d (get_brief_id_key id) (c.marshal brief)

    unfoldable pub get_submission_brief_report : Db → ℕ → Option A
    get_submission_brief_report d id = read_message p c (get d (get_brief_id_key id))
