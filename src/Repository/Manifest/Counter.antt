-- ===== src/Repository/Manifest/Counter.antt =====
-- The counter of a manifest's bytes under the merge operator of pkg/repository/merger.go.
use autograder_server.Repository.Pebble.{found}
use autograder_server.Repository.Batch.{merged}
use autograder_server.Repository.Codec.{Codec}
use autograder_server.Repository.Merger.{
  unset, get_counter, append_newer, finish, merge_newer, new_kv_merge, Mergeable, counter, unset,
}
use autograder_server.Base.{Option, ◌^◌, ◌%◌, ◌+◌, ◌∙◌, sym, List, ℕ, ◌∷◌, [], some, refl, ◌≡◌}

-- What the counters rely on of protobuf: no bytes are the empty message, and a counter is
-- marshalled without an error.
pub record CounterCodec (c : Codec Mergeable) : Type 0 where
  pub unmarshal-empty : c.unmarshal [] ≡ some unset
  pub marshal-counter : (n : ℕ) → (raw : List ℕ) × (c.marshal (counter n) ≡ some raw)

module _ (c : Codec Mergeable) (counters : CounterCodec c) where
  not_unset : (n : ℕ) → Path (Option Mergeable) (some unset) (some (counter n)) → ⊥
  not_unset n e = cc

  open_counter :
      (raw : List ℕ) (n : ℕ)
      → c.unmarshal raw ≡ some (counter n)
      → new_kv_merge c raw ≡ some (counter n)
  unfolding new_kv_merge
  open_counter [] n e = absurd (not_unset n (sym counters.unmarshal-empty ∙ e))
  open_counter (b ∷ r) n e = e

  -- Merging the marshalled counter b into the marshalled counter a is read as their sum.
  pub merged-counter :
      (old value : List ℕ) (a b : ℕ)
      → c.unmarshal old ≡ some (counter a)
      → c.marshal (counter b) ≡ some value
      → (raw : List ℕ) × (merged c (found old) value ≡ found raw)
        × (c.unmarshal raw ≡ some (counter ((a + b) % 2 ^ 64)))
  unfolding merge_newer finish append_newer get_counter
  merged-counter old value a b eo ev =
      let back = c.unmarshal-marshal (counter b) value ev in
      let (raw, er) = counters.marshal-counter ((a + b) % 2 ^ 64) in
      (
        raw,
        rw (open_counter old a eo, back, er) refl,
        c.unmarshal-marshal (counter ((a + b) % 2 ^ 64)) raw er,
      )
