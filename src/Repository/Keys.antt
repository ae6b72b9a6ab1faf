-- ===== src/Repository/Keys.antt =====
-- Keys that are a text, a decimal id, a colon and a rest, as the repositories build them.
use autograder_server.Repository.Prefix.Words.{big_endian-uint64_to_bytes}
use autograder_server.Repository.Prefix.Bounds.{in_range-prefix_iter_options}
use mathlib.Core.List.{append_assoc}
use autograder_server.Repository.Decimal.{decimal}
use autograder_server.Repository.Prefix.{
  big_endian_uint64, prefix_iter_options, in_range, IsBytes, has_prefix, uint64_to_bytes,
}
use autograder_server.Repository.Decimal.RoundTrip.{bytes_eq-decimal, decimal-IsDigits, IsDigits}
use native.Mathlib.Decide.{ℕ_discrete}
use autograder_server.Base.{
  drop, eq_of_bytes_eq, ap, Bool-cases, subst, sym, ◌∙◌, bytes_eq_refl, length, ==_iff, ◌&&◌, ◌==◌,
  ◌^◌, ◌<◌, bytes_eq, ◌++◌, List, ℕ, arith, ◌∷◌, [], inr, inl, true, refl, ◌≡◌,
}

-- A text of the source, an id by fmt's `%d`, a colon, and what follows.
abbrev pub numbered : List ℕ → ℕ → List ℕ → List ℕ
numbered tag n rest = tag ++ (decimal n ++ b':' ∷ rest)

pub bytes_eq-uint64_to_bytes :
    (a b : ℕ)
    → a < 2 ^ 64
    → b < 2 ^ 64
    → bytes_eq (uint64_to_bytes a) (uint64_to_bytes b) ≡ (a == b)
bytes_eq-uint64_to_bytes a b ha hb = elim (ℕ_discrete a b) [
  | yes e ↦ rw e (bytes_eq_refl (uint64_to_bytes b) ∙ sym ((==_iff b b).1 refl))
  | no ne ↦ elim (Bool-cases (bytes_eq (uint64_to_bytes a) (uint64_to_bytes b))) [
    | inl same ↦ absurd (
        ne (
          sym (big_endian-uint64_to_bytes a ha)
          ∙ ap big_endian_uint64 (eq_of_bytes_eq _ _ same)
          ∙ big_endian-uint64_to_bytes b hb))
    | inr other ↦ rw other (ground arith)
  ]
]

-- Two digit strings, each closed by a colon and followed by another text.
pub bytes_eq-digits :
    (xs ys r s : List ℕ)
    → IsDigits xs
    → IsDigits ys
    → bytes_eq (xs ++ b':' ∷ r) (ys ++ b':' ∷ s) ≡ (bytes_eq xs ys && bytes_eq r s)
unfolding bytes_eq
bytes_eq-digits [] [] r s hx hy = refl
bytes_eq-digits [] (y ∷ ys) r s hx hy = ground arith
bytes_eq-digits (x ∷ xs) [] r s hx hy = ground arith
bytes_eq-digits (x ∷ xs) (y ∷ ys) r s hx hy = ground (arith, bytes_eq-digits xs ys r s hx.1 hy.1)

pub IsBytes-append : (xs ys : List ℕ) → IsBytes xs → IsBytes ys → IsBytes (xs ++ ys)
IsBytes-append [] ys hx hy = hy
IsBytes-append (x ∷ xs) ys hx hy = (hx.0, IsBytes-append xs ys hx.1 hy)

pub IsBytes-of-digits : (xs : List ℕ) → IsDigits xs → IsBytes xs
IsBytes-of-digits [] h = tt
IsBytes-of-digits (x ∷ xs) h = (omega (arith, h.0), IsBytes-of-digits xs h.1)

pub has_prefix-append : (xs ys : List ℕ) → has_prefix xs (xs ++ ys) ≡ true
unfolding has_prefix
has_prefix-append [] ys = refl
has_prefix-append (x ∷ xs) ys = ground (arith, has_prefix-append xs ys)

pub drop-append : (xs ys : List ℕ) → drop (length xs) (xs ++ ys) ≡ ys
drop-append [] ys = refl
drop-append (x ∷ xs) ys = drop-append xs ys

bytes_eq-append : (t xs ys : List ℕ) → bytes_eq (t ++ xs) (t ++ ys) ≡ bytes_eq xs ys
unfolding bytes_eq
bytes_eq-append [] xs ys = refl
bytes_eq-append (x ∷ t) xs ys = rw ((==_iff x x).1 refl) (bytes_eq-append t xs ys)

pub bytes_eq-numbered :
    (tag r s : List ℕ) (a b : ℕ)
    → bytes_eq (numbered tag a r) (numbered tag b s) ≡ (a == b && bytes_eq r s)
bytes_eq-numbered tag r s a b = rw (
  bytes_eq-append tag (decimal a ++ b':' ∷ r) (decimal b ++ b':' ∷ s),
  bytes_eq-digits (decimal a) (decimal b) r s (decimal-IsDigits a) (decimal-IsDigits b),
  bytes_eq-decimal a b,
)

pub numbered-append : (tag r : List ℕ) (a : ℕ) → numbered tag a [] ++ r ≡ numbered tag a r
numbered-append tag r a = simp append_assoc

pub numbered-IsBytes :
    (tag r : List ℕ) (a : ℕ) → IsBytes tag → IsBytes r → IsBytes (numbered tag a r)
numbered-IsBytes tag r a ht hr =
    IsBytes-append tag _ ht
      (IsBytes-append (decimal a) _ (IsBytes-of-digits _ (decimal-IsDigits a)) (omega arith, hr))

-- A scan of the prefix visits the key.
pub in_range-numbered :
    (tag r : List ℕ) (a : ℕ)
    → IsBytes tag
    → IsBytes r
    → in_range (prefix_iter_options (numbered tag a [])) (numbered tag a r) ≡ true
in_range-numbered tag r a ht hr =
    in_range-prefix_iter_options (numbered tag a []) (numbered tag a r)
      (numbered-IsBytes tag [] a ht tt) (numbered-IsBytes tag r a ht hr)
    ∙ subst (λ t. has_prefix (numbered tag a []) t ≡ true) (numbered-append tag r a)
        (has_prefix-append (numbered tag a []) r)

pub uint64_to_bytes-IsBytes : (v : ℕ) → IsBytes (uint64_to_bytes v)
unfolding uint64_to_bytes
uint64_to_bytes-IsBytes v = omega arith
