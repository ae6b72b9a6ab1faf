-- ===== src/Repository/Batch.antt =====
-- Batches, merges and range deletions of github.com/cockroachdb/pebble, which are not part of the
-- repository: a batch of writes is committed as one write, `Merge` applies the operator that the
-- store was opened with, and a single `Merge` or `DeleteRange` is a batch of one.
use autograder_server.Repository.Prefix.{in_range}
use autograder_server.Repository.Merger.{merge_newer, finish, new_kv_merge, Mergeable}
use autograder_server.Repository.Codec.{Codec}
use autograder_server.Repository.Pebble.{found, Pebble, Got, failed, not_found, found}
use autograder_server.Base.{
  bytes_eq, ◌⊎◌, if◌then◌else◌, Bool, Option, List, ℕ, ◌∷◌, [], some, none, false, true, ◌>>=◌, ◌≡◌,
}

pub data Write : Type 0 where
  set_key : List ℕ → List ℕ → Write
  delete_entry : List ℕ → Write
  merge_key : List ℕ → List ℕ → Write
  delete_range : List ℕ → Option (List ℕ) → Write

abbrev got_of : Option (List ℕ) → Got
got_of none = failed
got_of (some raw) = found raw

module _ (c : Codec Mergeable) where
  -- What is read at a key after an operand is merged into it, by the operator of
  -- pkg/repository/merger.go.
  abbrev pub merged : Got → List ℕ → Got
  merged not_found value = got_of (do buffer ← new_kv_merge c value; finish c buffer)
  merged (found old) value =
      got_of
        (do buffer ← new_kv_merge c old; buffer' ← merge_newer c buffer value; finish c buffer')
  merged failed value = failed

  -- What is read at a key after a write.
  abbrev pub write_at : List ℕ → Write → Got → Got
  write_at j (set_key k v) got = if bytes_eq k j then found v else got
  write_at j (delete_entry k) got = if bytes_eq k j then not_found else got
  write_at j (merge_key k v) got = if bytes_eq k j then merged got v else got
  write_at j (delete_range low high) got =
      if in_range (record { lower_bound = low; upper_bound = high }) j then not_found else got

  abbrev pub writes_at : List ℕ → List Write → Got → Got
  writes_at j [] got = got
  writes_at j (w ∷ r) got = writes_at j r (write_at j w got)

  pub record Batches (p : Pebble) : Type 0 where
    pub commit : p.Db → List Write → p.Db × Bool
    pub get-commit :
        (d : p.Db) (ws : List Write) (j : List ℕ)
        → (commit d ws).1 ≡ true
        → p.get (commit d ws).0 j ≡ writes_at j ws (p.get d j)
    -- A commit that reports an error has happened as a whole or not at all.
    pub get-commit_failed :
        (d : p.Db) (ws : List Write)
        → (commit d ws).1 ≡ false
        → ((j : List ℕ) → p.get (commit d ws).0 j ≡ p.get d j)
          ⊎ ((j : List ℕ) → p.get (commit d ws).0 j ≡ writes_at j ws (p.get d j))
