-- ===== src/Repository/Decimal.antt =====
-- Decimal ids in keys: fmt's `%d` verb and strconv.Atoi of the Go standard library, as
-- pkg/repository uses them.
pub mod RoundTrip
use mathlib.Core.List.{append_assoc}
use autograder_server.Base.{
  ℕ, zero, suc, ◌+◌, ◌-◌, ◌*◌, ◌/◌, ◌%◌, ◌^◌, ◌≤◌, ◌<◌, ◌≡◌, Bool, ◌&&◌, Option, none, some, List,
  [], ◌∷◌, ◌++◌, arith, ltb, leb, ◌==◌, if◌then◌else◌, ltb→lt, All, Bool-cases, inl, inr,
}

-- The fuel bounds the digits; `suc n` is more than n needs.
decimal_from : ℕ → ℕ → List ℕ
decimal_from zero n = []
decimal_from (suc f) n =
    let front = decimal_from f (n / 10) in
    if ltb n 10 then (48 + n) ∷ [] else front ++ (48 + n % 10) ∷ []

unfoldable pub decimal : ℕ → List ℕ
unfolding decimal_from
decimal n = decimal_from (suc n) n

abbrev is_digit : ℕ → Bool
is_digit c = leb 48 c && leb c 57

atoi_digits : ℕ → List ℕ → Option ℕ
atoi_digits acc [] = some acc
atoi_digits acc (c ∷ cs) = if is_digit c then atoi_digits (acc * 10 + (c - 48)) cs else none

atoi_unsigned : List ℕ → Option ℕ
unfolding atoi_digits
atoi_unsigned [] = none
atoi_unsigned (c ∷ cs) = atoi_digits 0 (c ∷ cs)

atoi_positive : Option ℕ → Option ℕ
atoi_positive none = none
atoi_positive (some n) = if ltb n (2 ^ 63) then some n else none

atoi_negative : Option ℕ → Option ℕ
atoi_negative none = none
atoi_negative (some n) = if leb n (2 ^ 63) then some ((2 ^ 64 - n) % 2 ^ 64) else none

-- uint64(strconv.Atoi(s)) on a 64-bit platform; none is an error.
unfoldable pub atoi : List ℕ → Option ℕ
unfolding atoi_unsigned atoi_positive atoi_negative
atoi [] = none
atoi (c ∷ cs) =
    if c == b'-'
    then atoi_negative (atoi_unsigned cs)
    else if c == b'+'
    then atoi_positive (atoi_unsigned cs)
    else atoi_positive (atoi_unsigned (c ∷ cs))

abbrev in_uint64 : Option ℕ → Option ℕ
in_uint64 none = none
in_uint64 (some n) = if ltb n (2 ^ 64) then some n else none

-- strconv.ParseUint(s, 10, 64); none is an error.
unfoldable pub parse_uint : List ℕ → Option ℕ
unfolding atoi_unsigned
parse_uint s = in_uint64 (atoi_unsigned s)
