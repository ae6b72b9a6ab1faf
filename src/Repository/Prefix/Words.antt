-- ===== src/Repository/Prefix/Words.antt =====
-- The words of pkg/repository/prefix.go: decoding, and the order of encoded ids.
use native.Mathlib.Nat.{pow-suc}
use autograder_server.Base.{
  ℕ, ◌+◌, ◌*◌, ◌^◌, ◌<◌, ◌≡◌, refl, sym, ◌∙◌, List, [], ◌∷◌, arith, ltb, length,
}
use autograder_server.Repository.Prefix.{bytes_lt, IsBytes, uint64_to_bytes, big_endian_uint64}

pub big_endian-uint64_to_bytes : (v : ℕ) → v < 2 ^ 64 → big_endian_uint64 (uint64_to_bytes v) ≡ v
unfolding uint64_to_bytes big_endian_uint64
big_endian-uint64_to_bytes v h = omega arith

pub uint64_to_bytes-IsBytes : (v : ℕ) → IsBytes (uint64_to_bytes v)
unfolding uint64_to_bytes
uint64_to_bytes-IsBytes v = omega arith

-- The value of a byte string read as digits in base 256, by which its order is compared.
value : List ℕ → ℕ
value [] = 0
value (a ∷ as') = a * 256 ^ length as' + value as'

value-lt : (a : List ℕ) → IsBytes a → value a < 256 ^ length a
unfolding value
value-lt [] h = omega arith
value-lt (x ∷ a) h = rw (pow-suc 256 (length a)) (grind (arith, value-lt a h.1))

lt_step : (x y w p q : ℕ) → p < w → q < w → x < y → x * w + p < y * w + q
lt_step x y w p q hp hq h = grind arith

bytes_lt-value :
    (a b : List ℕ)
    → IsBytes a
    → IsBytes b
    → length a ≡ length b
    → bytes_lt a b ≡ ltb (value a) (value b)
unfolding bytes_lt value
bytes_lt-value [] [] ha hb e = refl
bytes_lt-value [] (y ∷ b) ha hb e = absurd (omega arith)
bytes_lt-value (x ∷ a) [] ha hb e = absurd (omega arith)
bytes_lt-value (x ∷ a) (y ∷ b) ha hb e =
    let l : length a ≡ length b = omega arith in
    rw l (
      ground (
        arith,
        lt_step x y (256 ^ length b) (value a) (value b),
        lt_step y x (256 ^ length b) (value b) (value a),
        bytes_lt-value a b ha.1 hb.1 l,
        rw l at (value-lt a ha.1),
        value-lt b hb.1,
      ))

value-uint64_to_bytes : (v : ℕ) → v < 2 ^ 64 → value (uint64_to_bytes v) ≡ v
unfolding value uint64_to_bytes
value-uint64_to_bytes v h = omega arith

length-uint64_to_bytes : (v : ℕ) → length (uint64_to_bytes v) ≡ 8
unfolding uint64_to_bytes
length-uint64_to_bytes v = refl

-- For numbers below 2 ^ 64 the encoded words have the order of the numbers.
pub bytes_lt-uint64_to_bytes :
    (v w : ℕ) → v < 2 ^ 64 → w < 2 ^ 64 → bytes_lt (uint64_to_bytes v) (uint64_to_bytes w) ≡ ltb v w
bytes_lt-uint64_to_bytes v w hv hw = rw (
  bytes_lt-value (uint64_to_bytes v) (uint64_to_bytes w) (uint64_to_bytes-IsBytes v)
      (uint64_to_bytes-IsBytes w) (length-uint64_to_bytes v ∙ sym (length-uint64_to_bytes w)),
  value-uint64_to_bytes v hv,
  value-uint64_to_bytes w hw,
)
