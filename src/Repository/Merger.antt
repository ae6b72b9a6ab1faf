-- ===== src/Repository/Merger.antt =====
-- pkg/repository/merger.go: the merge operator of the store, over Mergeable of proto/model.proto.
pub mod Order
use mathlib.Core.Option
use autograder_server.Base.{some, ◌^◌, ◌%◌, ◌+◌, ◌++◌, Option, List, ℕ, ◌∷◌, []}
use autograder_server.Repository.Codec.{Codec}

-- The oneof; `unset` is nil. A counter is the 64-bit pattern of an int64.
pub data Mergeable : Type 0 where
  unset : Mergeable
  counter : ℕ → Mergeable
  strings : List (List ℕ) → Mergeable
  ids : List ℕ → Mergeable

-- The getters give the zero value at another member of the oneof.
unfoldable pub get_counter : Mergeable → ℕ
get_counter (counter n) = n
get_counter unset = 0
get_counter (strings l) = 0
get_counter (ids l) = 0

unfoldable pub get_strings : Mergeable → List (List ℕ)
get_strings (strings l) = l
get_strings unset = []
get_strings (counter n) = []
get_strings (ids l) = []

unfoldable pub get_ids : Mergeable → List ℕ
get_ids (ids l) = l
get_ids unset = []
get_ids (counter n) = []
get_ids (strings l) = []

-- The switch of `MergeNewer`, from the buffer and the unmarshalled operand.
unfoldable pub append_newer : Mergeable → Mergeable → Mergeable
unfolding get_counter get_strings get_ids
append_newer (strings l) m = strings (l ++ get_strings m)
append_newer (counter n) m = counter ((n + get_counter m) % 2 ^ 64)
append_newer (ids l) m = ids (l ++ get_ids m)
append_newer unset m = m

-- The switch of `MergeOlder`.
unfoldable pub append_older : Mergeable → Mergeable → Mergeable
unfolding get_counter get_strings get_ids
append_older (strings l) m = strings (get_strings m ++ l)
append_older (counter n) m = counter ((n + get_counter m) % 2 ^ 64)
append_older (ids l) m = ids (get_ids m ++ l)
append_older unset m = m

-- The operands arrive as bytes; none is an unmarshalling error.
module _ (c : Codec Mergeable) where
  open c use {marshal, unmarshal}

  unfoldable pub merge_newer : Mergeable → List ℕ → Option Mergeable
  merge_newer buffer value = Option.map (append_newer buffer) (unmarshal value)

  unfoldable pub merge_older : Mergeable → List ℕ → Option Mergeable
  merge_older buffer value = Option.map (append_older buffer) (unmarshal value)

  unfoldable pub finish : Mergeable → Option (List ℕ)
  finish buffer = marshal buffer

  unfoldable pub new_kv_merge : List ℕ → Option Mergeable
  new_kv_merge [] = some unset
  new_kv_merge (b ∷ value) = unmarshal (b ∷ value)
