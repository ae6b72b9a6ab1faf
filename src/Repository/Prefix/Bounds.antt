-- ===== src/Repository/Prefix/Bounds.antt =====
-- `KeyUpperBound` of pkg/repository/prefix.go against the order of keys.
use autograder_server.Base.{
  ℕ, zero, suc, ◌+◌, ◌%◌, ◌<◌, ◌≡◌, refl, true, false, not, Option, none, some, List, [], ◌∷◌,
  arith, ltb, ◌==◌, if◌then◌else◌, length, get_or, set,
}
use autograder_server.Repository.Prefix.{
  bytes_lt, has_prefix, IsBytes, upper_bound_from, key_upper_bound, prefix_iter_options,
  below_upper, in_range,
}

-- The bound computed from the front.
upper_step : ℕ → Option (List ℕ) → Option (List ℕ)
upper_step b (some u) = some (b ∷ u)
upper_step b none = if not ((b + 1) % 256 == 0) then some ((b + 1) % 256 ∷ []) else none

upper_bound_from-cons :
    (b : ℕ) (xs : List ℕ) (i : ℕ)
    → upper_bound_from (b ∷ xs) (suc i) ≡ upper_step b (upper_bound_from xs i)
unfolding upper_bound_from upper_step
upper_bound_from-cons b xs zero = ground arith
upper_bound_from-cons b xs (suc i) =
    ground (arith, upper_bound_from-cons b (set xs i ((get_or xs i 0 + 1) % 256)) i)

key_upper_bound-cons :
    (b : ℕ) (xs : List ℕ) → key_upper_bound (b ∷ xs) ≡ upper_step b (key_upper_bound xs)
unfolding key_upper_bound
key_upper_bound-cons b xs = upper_bound_from-cons b xs (length xs)

below_step :
    (b c : ℕ) (o : Option (List ℕ)) (k : List ℕ)
    → b < 256
    → c < 256
    → below_upper (upper_step b o) (c ∷ k)
      ≡ (if ltb c b then true else if ltb b c then false else below_upper o k)
unfolding upper_step bytes_lt
below_step b c none [] hb hc = ground arith
below_step b c none (x ∷ k) hb hc = ground arith
below_step b c (some u) k hb hc = ground arith

key_upper_bound-nil : key_upper_bound [] ≡ none
unfolding key_upper_bound upper_bound_from
key_upper_bound-nil = refl

below_nil : (k : List ℕ) → bytes_lt k [] ≡ false
unfolding bytes_lt
below_nil [] = refl
below_nil (c ∷ k) = refl

-- For byte strings, the keys between a prefix and its computed upper bound are the keys that have
-- the prefix; there is no upper bound when every byte is 255.
pub in_range-prefix_iter_options :
    (p k : List ℕ) → IsBytes p → IsBytes k → in_range (prefix_iter_options p) k ≡ has_prefix p k
unfolding prefix_iter_options bytes_lt has_prefix
in_range-prefix_iter_options [] k hp hk = rw key_upper_bound-nil (ground (arith, below_nil k))
in_range-prefix_iter_options (b ∷ p) [] hp hk = ground arith
in_range-prefix_iter_options (b ∷ p) (c ∷ k) hp hk =
    rw (key_upper_bound-cons b p, below_step b c (key_upper_bound p) k hp.0 hk.0)
      (ground (arith, in_range-prefix_iter_options p k hp.1 hk.1))
