-- ===== src/Encode.antt =====
-- pkg/utils/encode.go: ids written as short codes.
pub mod RoundTrip
use autograder_server.Base.{
  ℕ, zero, suc, ◌+◌, ◌-◌, ◌*◌, ◌/◌, ◌%◌, ◌^◌, List, [], ◌∷◌, ◌++◌, Option, none, some, codes,
  get_or, length, take, ltb, ◌==◌, if◌then◌else◌,
}

abbrev pub dictionary : List ℕ
dictionary = codes "23456789ABCDEFGHJKLMNPQRSTUVWX"

abbrev pub complement : List ℕ
complement = codes "YZ"

-- The 30 letters of the dictionary.
unfoldable pub digit : ℕ → ℕ
digit i = get_or dictionary (i % 30) 0

-- The first place of a byte, as `strings.IndexByte` finds it.
abbrev pub index_from : ℕ → List ℕ → ℕ → Option ℕ
index_from i [] c = none
index_from i (x ∷ xs) c = if x == c then some i else index_from (suc i) xs c

-- A byte that is not a key of the Go map reads 0.
unfoldable pub reverse_dict : ℕ → ℕ
reverse_dict c = elim (index_from 0 dictionary c) [ none ↦ 0 | some i ↦ i ]

-- The loop and the digit after it, on fuel.
unfoldable pub encode_loop : ℕ → ℕ → List ℕ
encode_loop zero id = []
encode_loop (suc f) id =
    let rest = encode_loop f (id / 30) in if id / 30 == 0 then digit id ∷ [] else digit id ∷ rest

-- The letters from the draw numbered `i` on.
abbrev pub padding : (ℕ → ℕ) → ℕ → ℕ → List ℕ
padding random zero i = []
padding random (suc n) i = digit (random i) ∷ padding random n (suc i)

abbrev pub padded : (ℕ → ℕ) → List ℕ → List ℕ
padded random code =
    if ltb (length code) 8
    then code ++ get_or complement (random 0 % 2) 0 ∷ padding random (7 - length code) 1
    else code

-- `random` is what `rand` draws, in its order. A uint64 has at most 14 digits.
unfoldable pub base30_encode : (ℕ → ℕ) → ℕ → List ℕ
unfolding encode_loop
base30_encode random id = padded random (encode_loop 14 id)

abbrev pub length_to : Option ℕ → Option ℕ → ℕ → ℕ
length_to (some i) z l = i
length_to none (some i) l = i
length_to none none l = l

-- The letters up to the first Y, or without one up to the first Z.
abbrev pub code_length : List ℕ → ℕ
code_length code = length_to (index_from 0 code b'Y') (index_from 0 code b'Z') (length code)

-- `power i` is `uint64(math.Pow(30, i))`, which is exact as long as a float64 holds it.
module _ (power : ℕ → ℕ) where
  unfoldable pub decode_loop : ℕ → ℕ → List ℕ → ℕ
  decode_loop i id [] = id
  decode_loop i id (c ∷ cs) = decode_loop (suc i) ((id + power i * reverse_dict c) % 2 ^ 64) cs

  unfoldable pub base30_decode : List ℕ → ℕ
  unfolding decode_loop
  base30_decode code = decode_loop 0 0 (take (code_length code) code)
