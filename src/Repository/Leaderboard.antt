-- ===== src/Repository/Leaderboard.antt =====
-- pkg/repository/leaderboard.go: the entries of an assignment's leaderboard, the marker that there
-- is one, and the marker that it is anonymous.
pub mod Marker
use autograder_server.Repository.Stored.{is_stored, put_message, read_message}
use autograder_server.Repository.Decimal.{decimal}
use autograder_server.Repository.Codec.{Codec}
use autograder_server.Repository.Prefix.{uint64_to_bytes, prefix_iter_options}
use autograder_server.Repository.Keys.{numbered}
use autograder_server.Repository.Pebble.{
  found, found, Entries, Pebble, Got, failed, not_found, found,
}
use autograder_server.Base.{
  if◌then◌else◌, codes, ◌++◌, Bool, Option, List, ℕ, ◌∷◌, [], some, none, false, true, ◌>>=◌,
}

unfoldable pub get_anonymous_marker : ℕ → List ℕ
get_anonymous_marker assignment_id = codes "leaderboard:anonymous:" ++ decimal assignment_id

unfoldable pub get_marker_id : ℕ → List ℕ
get_marker_id assignment_id = codes "leaderboard:marker:" ++ decimal assignment_id

unfoldable pub get_assignment_prefix : ℕ → List ℕ
get_assignment_prefix assignment_id = numbered (codes "leaderboard:assignment:") assignment_id []

unfoldable pub get_assignment_user_key : ℕ → ℕ → List ℕ
unfolding get_assignment_prefix
get_assignment_user_key assignment_id user_id =
    get_assignment_prefix assignment_id ++ uint64_to_bytes user_id

module _ (p : Pebble) where
  open p use {Db, get, put, delete, scan}

  -- What follows the scan of the remaining entries: an error of the iterator, or the end of an
  -- empty leaderboard. Errors of the deletions are ignored.
  abbrev unmark : Db → ℕ → Option Entries → Db × Bool
  unmark d assignment_id none = (d, false)
  unmark d assignment_id (some []) = ((delete d (get_marker_id assignment_id)).0, true)
  unmark d assignment_id (some (e ∷ r)) = (d, true)

  unfoldable pub delete_leaderboard_entry : Db → ℕ → ℕ → Db × Bool
  delete_leaderboard_entry d assignment_id user_id =
      let d' = (delete d (get_assignment_user_key assignment_id user_id)).0 in
      unmark d' assignment_id (scan d' (prefix_iter_options (get_assignment_prefix assignment_id)))

  unfoldable pub set_leaderboard_anonymous : Db → ℕ → Bool → Db × Bool
  set_leaderboard_anonymous d assignment_id anonymous =
      if anonymous
      then put d (get_anonymous_marker assignment_id) []
      else delete d (get_anonymous_marker assignment_id)

  unfoldable pub get_leaderboard_anonymous : Db → ℕ → Bool
  get_leaderboard_anonymous d assignment_id = is_stored (get d (get_anonymous_marker assignment_id))

  unfoldable pub has_leaderboard : Db → ℕ → Bool
  has_leaderboard d assignment_id = is_stored (get d (get_marker_id assignment_id))

  abbrev mark : Db × Bool → ℕ → Db × Bool
  mark (d, false) assignment_id = (d, false)
  mark (d, true) assignment_id = put d (get_marker_id assignment_id) []

  module _ {A : Type 0} (c : Codec A) where
    unfoldable pub update_leaderboard_entry : Db → ℕ → ℕ → A → Db × Bool
    update_leaderboard_entry d assignment_id user_id entry =
        mark (put_message p c d (get_assignment_user_key assignment_id user_id) (c.marshal entry))
          assignment_id

    unfoldable pub get_leaderboard_entry : Db → ℕ → ℕ → Option A
    get_leaderboard_entry d assignment_id user_id =
        read_message p c (get d (get_assignment_user_key assignment_id user_id))

    -- none is an iterator's or an unmarshalling error.
    unfoldable pub leaderboard_entries : Entries → Option (List A)
    leaderboard_entries [] = some []
    leaderboard_entries ((key, raw) ∷ r) = do
      entry ← c.unmarshal raw
      entries ← leaderboard_entries r
      some (entry ∷ entries)

    unfoldable pub get_leaderboard : Db → ℕ → Option (List A)
    unfolding leaderboard_entries
    get_leaderboard d assignment_id = do
      entries ← scan d (prefix_iter_options (get_assignment_prefix assignment_id))
      leaderboard_entries entries
