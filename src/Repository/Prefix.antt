-- ===== src/Repository/Prefix.antt =====
-- pkg/repository/prefix.go: byte keys, their order, the bounds of a prefix scan, and the
-- big-endian words in keys and values.
pub mod Bounds
pub mod Words
use autograder_server.Base.{
  ℕ, zero, suc, ◌+◌, ◌*◌, ◌/◌, ◌%◌, ◌^◌, ◌<◌, Bool, true, false, not, ◌&&◌, Option, none, some,
  List, [], ◌∷◌, ltb, ◌==◌, if◌then◌else◌, length, get_or, set, take, All,
}

-- bytes.Compare, by which the store orders its keys.
unfoldable pub bytes_lt : List ℕ → List ℕ → Bool
bytes_lt [] [] = false
bytes_lt [] (b ∷ bs) = true
bytes_lt (a ∷ as') [] = false
bytes_lt (a ∷ as') (b ∷ bs) = if ltb a b then true else if ltb b a then false else bytes_lt as' bs

unfoldable pub has_prefix : List ℕ → List ℕ → Bool
has_prefix [] k = true
has_prefix (a ∷ p) [] = false
has_prefix (a ∷ p) (b ∷ k) = a == b && has_prefix p k

abbrev pub IsBytes : List ℕ → Type 0
IsBytes = All (λ b. b < 256)

-- The loop of `KeyUpperBound`; `suc i` is the round with index i, and none is the nil slice.
upper_bound_from : List ℕ → ℕ → Option (List ℕ)
upper_bound_from end zero = none
upper_bound_from end (suc i) =
    let end' = set end i ((get_or end i 0 + 1) % 256) in
    let rest = upper_bound_from end' i in
    if not (get_or end' i 0 == 0) then some (take (suc i) end') else rest

unfoldable pub key_upper_bound : List ℕ → Option (List ℕ)
unfolding upper_bound_from
key_upper_bound b = upper_bound_from b (length b)

pub record IterOptions : Type 0 where
  pub lower_bound : List ℕ
  pub upper_bound : Option (List ℕ)

unfoldable pub prefix_iter_options : List ℕ → IterOptions
prefix_iter_options prefix = record { lower_bound = prefix; upper_bound = key_upper_bound prefix }

abbrev pub below_upper : Option (List ℕ) → List ℕ → Bool
below_upper none k = true
below_upper (some u) k = bytes_lt k u

-- The keys that an iterator with these options visits.
abbrev pub in_range : IterOptions → List ℕ → Bool
in_range o k = not (bytes_lt k o.lower_bound) && below_upper o.upper_bound k

-- binary.BigEndian.PutUint64 and Uint64.
unfoldable pub uint64_to_bytes : ℕ → List ℕ
uint64_to_bytes v =
    (v / 2 ^ 56 % 256)
    ∷ (v / 2 ^ 48 % 256)
    ∷ (v / 2 ^ 40 % 256)
    ∷ (v / 2 ^ 32 % 256)
    ∷ (v / 2 ^ 24 % 256)
    ∷ (v / 2 ^ 16 % 256)
    ∷ (v / 2 ^ 8 % 256)
    ∷ (v % 256)
    ∷ []

unfoldable pub big_endian_uint64 : List ℕ → ℕ
big_endian_uint64 b =
    get_or b 0 0 * 2 ^ 56
    + get_or b 1 0 * 2 ^ 48
    + get_or b 2 0 * 2 ^ 40
    + get_or b 3 0 * 2 ^ 32
    + get_or b 4 0 * 2 ^ 24
    + get_or b 5 0 * 2 ^ 16
    + get_or b 6 0 * 2 ^ 8
    + get_or b 7 0

-- binary.BigEndian.PutUint32.
unfoldable pub uint32_to_bytes : ℕ → List ℕ
uint32_to_bytes v = (v / 2 ^ 24 % 256) ∷ (v / 2 ^ 16 % 256) ∷ (v / 2 ^ 8 % 256) ∷ (v % 256) ∷ []
