-- ===== src/Encode/RoundTrip.antt =====
-- What `Base30Decode` reads of what `Base30Encode` writes.
use mathlib.Core.List.{append-nil}
use autograder_server.Encode.{
  digit, dictionary, index_from, reverse_dict, encode_loop, padding, padded, base30_encode,
  code_length, decode_loop, base30_decode,
}
use native.Mathlib.Nat.{mul-add, mul_left_comm, mul_assoc, mul-zero, pow-succ'}
use autograder_server.Base.{
  ◌⊎◌, ◌∙◌, get_or, ap, ◌||◌, subst, false, ℕ, zero, suc, ◌+◌, ◌-◌, ◌*◌, ◌/◌, ◌%◌, ◌^◌, ◌<◌, ◌≤◌,
  List, [], ◌∷◌, ◌++◌, none, some, ◌≡◌, length, take, ltb, ◌==◌, arith, refl, Bool, true, All,
  Bool-cases, inl, inr, ◌&&◌, not,
}

-- A test of every number below a bound.
abbrev holds_below : (ℕ → Bool) → ℕ → Bool
holds_below f zero = true
holds_below f (suc n) = f n && holds_below f n

at_holds_below : (f : ℕ → Bool) (n i : ℕ) → holds_below f n ≡ true → i < n → f i ≡ true
at_holds_below f zero i h le = elim le [ ]
at_holds_below f (suc n) i h le = elim (Bool-cases (i == n)) [
  | inl same ↦ grind arith
  | inr other ↦ at_holds_below f n i (ground arith) (ground arith)
]

abbrev is_letter : ℕ → ℕ → Bool
is_letter i c = not (c == b'Y') && not (c == b'Z') && (reverse_dict c == i)

digits_are_letters : holds_below (λ i. is_letter i (digit i)) 30 ≡ true
unfolding digit reverse_dict
digits_are_letters = refl

digit-mod : (i : ℕ) → digit (i % 30) ≡ digit i
unfolding digit
digit-mod i = let same : i % 30 % 30 ≡ i % 30 = omega arith in ap (λ j. get_or dictionary j 0) same

digit-is_letter : (i : ℕ) → is_letter (i % 30) (digit i) ≡ true
digit-is_letter i =
    subst (λ c. is_letter (i % 30) c ≡ true) (digit-mod i)
      (at_holds_below (λ n. is_letter n (digit n)) 30 (i % 30) digits_are_letters (omega arith))

abbrev is_plain : ℕ → Bool
is_plain c = not (c == b'Y') && not (c == b'Z')

digit-is_plain : (i : ℕ) → is_plain (digit i) ≡ true
digit-is_plain i = ground (arith, digit-is_letter i)

reverse_dict-digit : (i : ℕ) → reverse_dict (digit i) ≡ i % 30
reverse_dict-digit i = ground (arith, digit-is_letter i)

-- Bytes that are not in the complement.
abbrev IsPlain : List ℕ → Type 0
IsPlain = All (λ c. is_plain c ≡ true)

abbrev is_complement : ℕ → Bool
is_complement c = (c == b'Y') || (c == b'Z')

index_from-append :
    (c i : ℕ) (xs ys : List ℕ)
    → is_complement c ≡ true
    → IsPlain xs
    → index_from i (xs ++ ys) c ≡ index_from (i + length xs) ys c
index_from-append c i [] ys k h = ap (λ j. index_from j ys c) (omega arith)
index_from-append c i (x ∷ xs) ys k h =
    let next = index_from-append c (suc i) xs ys k h.1 in
    let moved : index_from (suc i + length xs) ys c ≡ index_from (i + suc (length xs)) ys c =
      ap (λ j. index_from j ys c) (omega arith) in
    let differs : (x == c) ≡ false = ground (arith, h.0) in rw differs (next ∙ moved)

take-append : (xs ys : List ℕ) → take (length xs) (xs ++ ys) ≡ xs
take-append [] ys = refl
take-append (x ∷ xs) ys = ap (λ zs. x ∷ zs) (take-append xs ys)

encode_loop-IsPlain : (f n : ℕ) → IsPlain (encode_loop f n)
unfolding encode_loop
encode_loop-IsPlain zero n = tt
encode_loop-IsPlain (suc f) n = elim (Bool-cases (n / 30 == 0)) [
  | inl last ↦ rw last (digit-is_plain n, tt)
  | inr more ↦ rw more (digit-is_plain n, encode_loop-IsPlain f (n / 30))
]

encode_loop-last : (f n : ℕ) → (n / 30 == 0) ≡ true → encode_loop (suc f) n ≡ digit n ∷ []
unfolding encode_loop
encode_loop-last f n e = rw e refl

encode_loop-more :
    (f n : ℕ) → (n / 30 == 0) ≡ false → encode_loop (suc f) n ≡ digit n ∷ encode_loop f (n / 30)
unfolding encode_loop
encode_loop-more f n e = rw e refl

padding-IsPlain : (random : ℕ → ℕ) (n i : ℕ) → IsPlain (padding random n i)
padding-IsPlain random zero i = tt
padding-IsPlain random (suc n) i = (digit-is_plain (random i), padding-IsPlain random n (suc i))

index_from-none :
    (c i : ℕ) (xs : List ℕ) → is_complement c ≡ true → IsPlain xs → index_from i xs c ≡ none
index_from-none c i xs k h =
    subst (λ zs. index_from i zs c ≡ none) (append-nil xs) (index_from-append c i xs [] k h)

code_length-plain : (xs : List ℕ) → IsPlain xs → code_length xs ≡ length xs
code_length-plain xs h =
    rw (index_from-none b'Y' 0 xs refl h, index_from-none b'Z' 0 xs refl h) refl

index_from-there :
    (c : ℕ) (xs ys : List ℕ)
    → is_complement c ≡ true
    → IsPlain xs
    → index_from 0 (xs ++ c ∷ ys) c ≡ some (length xs)
index_from-there c xs ys k h =
    let same : (c == c) ≡ true = ground arith in
    index_from-append c 0 xs (c ∷ ys) k h ∙ rw same (ap some (omega arith))

code_length-Y : (xs ys : List ℕ) → IsPlain xs → code_length (xs ++ b'Y' ∷ ys) ≡ length xs
code_length-Y xs ys h = rw (index_from-there b'Y' xs ys refl h) refl

code_length-Z :
    (xs ys : List ℕ) → IsPlain xs → IsPlain ys → code_length (xs ++ b'Z' ∷ ys) ≡ length xs
code_length-Z xs ys h h' =
    let passed : index_from 0 (xs ++ b'Z' ∷ ys) b'Y' ≡ none =
      index_from-append b'Y' 0 xs (b'Z' ∷ ys) refl h
      ∙ index_from-none b'Y' (suc (0 + length xs)) ys refl h' in
    rw (passed, index_from-there b'Z' xs ys refl h) refl

is_zero_or_one : (n : ℕ) → (n % 2 ≡ 0) ⊎ (n % 2 ≡ 1)
is_zero_or_one n = omega arith

-- The code is cut off at its complement.
take_code-padded :
    (random : ℕ → ℕ) (xs : List ℕ)
    → IsPlain xs
    → take (code_length (padded random xs)) (padded random xs) ≡ xs
take_code-padded random xs h = elim (Bool-cases (ltb (length xs) 8)) [
  | inl short ↦
      let rest = padding random (7 - length xs) 1 in
      elim (is_zero_or_one (random 0)) [
        | inl zero_drawn ↦
            rw (short, zero_drawn, code_length-Y xs rest h) (take-append xs (b'Y' ∷ rest))
        | inr one_drawn ↦
            rw
              (short, one_drawn, code_length-Z xs rest h (padding-IsPlain random (7 - length xs) 1))
              (take-append xs (b'Z' ∷ rest))
      ]
  | inr long ↦
      rw (long, code_length-plain xs h)
        (subst (λ zs. take (length xs) zs ≡ xs) (append-nil xs) (take-append xs []))
]

distributed : (a q r : ℕ) → a * (30 * q + r) ≡ a * r + 30 * a * q
distributed a q r = omega (arith, mul-add a (30 * q) r, mul_left_comm a 30 q, mul_assoc 30 a q)

-- The digit's part and the rest, added with the wrap-around of a uint64.
step_sum :
    (a id n : ℕ)
    → ((id + a * (n % 30)) % 2 ^ 64 + 30 * a * (n / 30)) % 2 ^ 64 ≡ (id + a * n) % 2 ^ 64
step_sum a id n =
    let split : n ≡ 30 * (n / 30) + n % 30 = omega arith in
    let parts : a * n ≡ a * (n % 30) + 30 * a * (n / 30) =
      ap (λ t. a * t) split ∙ distributed a (n / 30) (n % 30) in
    omega (arith, parts)

module _ (power : ℕ → ℕ) (exact : (i : ℕ) → i < 14 → power i ≡ 30 ^ i) where
  decode_loop-encode_loop :
      (f i id n : ℕ)
      → i + f ≤ 14
      → n < 30 ^ f
      → id < 2 ^ 64
      → decode_loop power i id (encode_loop f n) ≡ (id + 30 ^ i * n) % 2 ^ 64
  unfolding decode_loop encode_loop
  decode_loop-encode_loop zero i id n b h k =
      let none_left : n ≡ zero = omega (arith, h) in rw none_left (omega (arith, mul-zero (30 ^ i)))
  decode_loop-encode_loop (suc f) i id n b h k =
      let P = 30 ^ i in
      let digit_read : power i * reverse_dict (digit n) ≡ P * (n % 30) =
        rw (exact i (omega arith), reverse_dict-digit n) refl in
      elim (Bool-cases (n / 30 == 0)) [
        | inl last ↦
            let small : n % 30 ≡ n = ground arith in
            ap (decode_loop power i id) (encode_loop-last f n last)
            ∙ ap (λ t. (id + t) % 2 ^ 64) (digit_read ∙ ap (λ t. P * t) small)
        | inr more ↦
            let id' = (id + P * (n % 30)) % 2 ^ 64 in
            let below : n / 30 < 30 ^ f = omega (arith, h, pow-succ' 30 f) in
            ap (decode_loop power i id) (encode_loop-more f n more)
            ∙ ap (λ t. decode_loop power (suc i) ((id + t) % 2 ^ 64) (encode_loop f (n / 30)))
                digit_read
            ∙ decode_loop-encode_loop f (suc i) id' (n / 30) (omega (arith, b)) below (omega arith)
            ∙ ap (λ t. (id' + t * (n / 30)) % 2 ^ 64) (pow-succ' 30 i)
            ∙ step_sum P id n
      ]

  -- An id below 2 ^ 64 is read back from its code, whatever is drawn for the code, if the powers of
  -- 30 with exponents below 14 are exact.
  pub base30_decode-base30_encode :
      (random : ℕ → ℕ) (id : ℕ) → id < 2 ^ 64 → base30_decode power (base30_encode random id) ≡ id
  unfolding base30_decode base30_encode
  base30_decode-base30_encode random id h =
      rw (take_code-padded random (encode_loop 14 id) (encode_loop-IsPlain 14 id)) (
        rw (decode_loop-encode_loop 14 0 0 id (omega arith) (omega (arith, h)) (omega arith))
          (omega (arith, h)))
