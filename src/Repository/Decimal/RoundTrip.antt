-- ===== src/Repository/Decimal/RoundTrip.antt =====
-- Decimal ids of keys, read and compared.
use native.Mathlib.Decide.{ℕ_discrete}
use autograder_server.Repository.Prefix.{has_prefix}
use mathlib.Core.List.{append-nil, append_assoc}
use autograder_server.Base.{
  ℕ, zero, refl, eq_of_bytes_eq, ==_iff, sym, ◌∙◌, bytes_eq_refl, ◌%◌, subst, ◌+◌, [], ap, ◌^◌,
  ◌==◌, ◌/◌, ◌∷◌, some, ◌≡◌, ◌++◌, ◌≤◌, inr, ◌<◌, ltb→lt, arith, inl, ltb, All, Bool-cases,
  bytes_eq, List, suc,
}
use autograder_server.Repository.Decimal.{
  parse_uint, atoi_positive, atoi, atoi_digits, decimal_from, atoi_unsigned, decimal,
}

abbrev pub IsDigits : List ℕ → Type 0
IsDigits = All (λ c. (48 ≤ c) × (c ≤ 57))

IsDigits-append : (xs ys : List ℕ) → IsDigits xs → IsDigits ys → IsDigits (xs ++ ys)
IsDigits-append [] ys hx hy = hy
IsDigits-append (x ∷ xs) ys hx hy = (hx.0, IsDigits-append xs ys hx.1 hy)

decimal_from-IsDigits : (f n : ℕ) → IsDigits (decimal_from f n)
unfolding decimal_from
decimal_from-IsDigits zero n = tt
decimal_from-IsDigits (suc f) n = elim (Bool-cases (ltb n 10)) [
  | inl small ↦ rw small (omega (arith, ltb→lt n 10 small))
  | inr big ↦
      rw big (
        IsDigits-append (decimal_from f (n / 10)) _ (decimal_from-IsDigits f (n / 10))
          (omega arith))
]

pub decimal-IsDigits : (n : ℕ) → IsDigits (decimal n)
unfolding decimal
decimal-IsDigits n = decimal_from-IsDigits (suc n) n

append_nonempty : (xs : List ℕ) (d : ℕ) → (c : ℕ) × (cs : List ℕ) × (xs ++ d ∷ [] ≡ c ∷ cs)
append_nonempty [] d = (d, [], refl)
append_nonempty (x ∷ xs) d = (x, xs ++ d ∷ [], refl)

atoi_digits-decimal_from :
    (f n : ℕ) (rest : List ℕ)
    → n < f
    → atoi_digits 0 (decimal_from f n ++ rest) ≡ atoi_digits n rest
unfolding atoi_digits decimal_from
atoi_digits-decimal_from zero n rest h = elim h [ ]
atoi_digits-decimal_from (suc f) n rest h = elim (Bool-cases (ltb n 10)) [
  | inl small ↦ rw small (ground arith)
  | inr big ↦
      rw (big, append_assoc)
        (ground (arith, atoi_digits-decimal_from f (n / 10) ((48 + n % 10) ∷ rest)))
]

decimal_nonempty : (f n : ℕ) → (c : ℕ) × (cs : List ℕ) × (decimal_from (suc f) n ≡ c ∷ cs)
unfolding decimal_from
decimal_nonempty f n = elim (Bool-cases (ltb n 10)) [
  | inl small ↦ (48 + n, [], rw small)
  | inr big ↦ rw big (append_nonempty (decimal_from f (n / 10)) (48 + n % 10))
]

atoi_unsigned-cons : (s cs : List ℕ) (c : ℕ) → s ≡ c ∷ cs → atoi_unsigned s ≡ atoi_digits 0 s
unfolding atoi_unsigned
atoi_unsigned-cons [] cs c e = ground arith
atoi_unsigned-cons (x ∷ s) cs c e = refl

atoi_unsigned-decimal : (n : ℕ) → atoi_unsigned (decimal n) ≡ some n
unfolding decimal
atoi_unsigned-decimal n =
    let (c, cs, e) = decimal_nonempty n n in
    rw (atoi_unsigned-cons (decimal_from (suc n) n) cs c e) (
      subst (λ t. atoi_digits 0 t ≡ some n) (append-nil (decimal_from (suc n) n))
        (unfold atoi_digits in atoi_digits-decimal_from (suc n) n [] (omega arith)))

-- `Atoi` of a digit string has no sign to read.
atoi-digits : (s : List ℕ) → IsDigits s → atoi s ≡ atoi_positive (atoi_unsigned s)
unfolding atoi
atoi-digits [] h = refl
atoi-digits (c ∷ cs) h = ground arith

-- An id below 2 ^ 63 that is written in decimal is read back.
pub atoi-decimal : (n : ℕ) → n < 2 ^ 63 → atoi (decimal n) ≡ some n
atoi-decimal n h =
    rw (atoi-digits (decimal n) (decimal-IsDigits n), atoi_unsigned-decimal n)
      (unfold atoi_positive in ground arith)

pub decimal-injective : (a b : ℕ) → decimal a ≡ decimal b → a ≡ b
decimal-injective a b e =
    ground (arith, atoi_unsigned-decimal a, atoi_unsigned-decimal b, ap atoi_unsigned e)

pub bytes_eq-decimal : (a b : ℕ) → bytes_eq (decimal a) (decimal b) ≡ (a == b)
bytes_eq-decimal a b = elim (ℕ_discrete a b) [
  | yes e ↦ rw e (bytes_eq_refl (decimal b) ∙ sym ((==_iff b b).1 refl))
  | no ne ↦ elim (Bool-cases (bytes_eq (decimal a) (decimal b))) [
    | inl same ↦ absurd (ne (decimal-injective a b (eq_of_bytes_eq _ _ same)))
    | inr other ↦ rw other (ground arith)
  ]
]

-- Two digit strings, each closed by a colon: one is a prefix of the other exactly if they are equal.
pub has_prefix-digits :
    (xs ys rest : List ℕ)
    → IsDigits xs
    → IsDigits ys
    → has_prefix (xs ++ b':' ∷ []) (ys ++ b':' ∷ rest) ≡ bytes_eq xs ys
unfolding has_prefix bytes_eq
has_prefix-digits [] [] rest hx hy = refl
has_prefix-digits [] (y ∷ ys) rest hx hy = ground arith
has_prefix-digits (x ∷ xs) [] rest hx hy = ground arith
has_prefix-digits (x ∷ xs) (y ∷ ys) rest hx hy =
    ground (arith, has_prefix-digits xs ys rest hx.1 hy.1)

-- An id below 2 ^ 64 is read back from its digits by ParseUint.
pub parse_uint-decimal : (n : ℕ) → n < 2 ^ 64 → parse_uint (decimal n) ≡ some n
unfolding parse_uint
parse_uint-decimal n h = rw (atoi_unsigned-decimal n) (ground arith)
