-- ===== src/Repository/Submissions.antt =====
-- pkg/repository/submission.go: the submissions by id, and those of a user in an assignment.
pub mod Listed
use autograder_server.Repository.Messages.{Submission}
use autograder_server.Repository.Merger.{Mergeable}
use autograder_server.Repository.Decimal.{decimal}
use autograder_server.Repository.Codec.{Codec}
use autograder_server.Repository.Prefix.{
  big_endian_uint64, key_upper_bound, prefix_iter_options, uint64_to_bytes,
}
use autograder_server.Repository.Keys.{numbered}
use autograder_server.Repository.Pebble.{Entries, Pebble}
use autograder_server.Repository.Sequencer.{
  get_next_id, NextId, KvSequencer, out_of_fuel, write_error, next_id,
}
use autograder_server.Repository.Batch.{Write, Batches, delete_range, set_key}
use autograder_server.Repository.Stored.{Created, read_message, create_error, created}
use autograder_server.Base.{
  drop, if◌then◌else◌, length, codes, ◌++◌, Bool, Option, List, ℕ, ◌∷◌, [], some, none, ◌>>=◌, ◌≡◌,
}

unfoldable pub get_submission_key : ℕ → List ℕ
get_submission_key id = codes "submission:id:" ++ decimal id

unfoldable pub get_user_assignment_prefix : ℕ → ℕ → List ℕ
get_user_assignment_prefix user_id assignment_id =
    numbered (codes "submission:user:assignment:") user_id (numbered [] assignment_id [])

unfoldable pub get_user_assignment_key : ℕ → ℕ → ℕ → List ℕ
unfolding get_user_assignment_prefix
get_user_assignment_key user_id assignment_id submission_id =
    get_user_assignment_prefix user_id assignment_id ++ uint64_to_bytes submission_id

module _ (p : Pebble) (cm : Codec Mergeable) (c : Codec Submission) (b : Batches cm p) where
  open p use {Db, get, scan}
  open b use {commit}

  -- A range deletion is a batch of one write.
  unfoldable pub delete_submissions_by_user_and_assignment : Db → ℕ → ℕ → Db × Bool
  delete_submissions_by_user_and_assignment d user_id assignment_id =
      let prefix = get_user_assignment_prefix user_id assignment_id in
      commit d (delete_range prefix (key_upper_bound prefix) ∷ [])

  abbrev submission_ids : ℕ → Entries → List ℕ
  submission_ids prefix_len [] = []
  submission_ids prefix_len ((key, raw) ∷ r) =
      big_endian_uint64 (drop prefix_len key) ∷ submission_ids prefix_len r

  unfoldable pub get_submissions_by_user_and_assignment : Db → ℕ → ℕ → Option (List ℕ)
  get_submissions_by_user_and_assignment d user_id assignment_id =
      let prefix = get_user_assignment_prefix user_id assignment_id in
      do
        entries ← scan d (prefix_iter_options prefix)
        some (submission_ids (length prefix) entries)

  abbrev listings : List ℕ → ℕ → ℕ → List Write
  listings [] assignment_id id = []
  listings (u ∷ r) assignment_id id =
      set_key (get_user_assignment_key u assignment_id id) [] ∷ listings r assignment_id id

  abbrev create_numbered :
      Db × KvSequencer × NextId → Submission → List ℕ → Db × KvSequencer × Created
  create_numbered (d, q, next_id id) s raw =
      let (d', ok) =
        commit d (set_key (get_submission_key id) raw ∷ listings s.submitters s.assignment_id id) in
      (d', q, if ok then created id else create_error)
  create_numbered (d, q, write_error) s raw = (d, q, create_error)
  create_numbered (d, q, out_of_fuel) s raw = (d, q, create_error)

  abbrev create_marshalled :
      Db → KvSequencer → Submission → Option (List ℕ) → Db × KvSequencer × Created
  create_marshalled d q s none = (d, q, create_error)
  create_marshalled d q s (some raw) = create_numbered (get_next_id p 2 d q) s raw

  unfoldable pub create_submission : Db → KvSequencer → Submission → Db × KvSequencer × Created
  create_submission d q s = create_marshalled d q s (c.marshal s)

  unfoldable pub get_submission : Db → ℕ → Option Submission
  get_submission d id = read_message p c (get d (get_submission_key id))
