-- ===== src/Repository/Manifest/Files.antt =====
-- A manifest as a list of file names and sizes, each name once.
use autograder_server.Base.{
  Option-cases, ◌≤◌, ap, bytes_eq_refl, false≢true, sym, ◌∙◌, Bool, false, true, subst, eq_of_some,
  eq_of_bytes_eq, bytes_eq, ◌^◌, ◌+◌, ◌<◌, if◌then◌else◌, Bool-cases, Option, List, ℕ, arith, ◌∷◌,
  [], inr, inl, some, none, refl, ◌≡◌,
}

abbrev pub size_of : List ℕ → List (List ℕ × ℕ) → Option ℕ
size_of name [] = none
size_of name ((n, s) ∷ r) = if bytes_eq n name then some s else size_of name r

abbrev pub total : List (List ℕ × ℕ) → ℕ
total [] = 0
total ((n, s) ∷ r) = s + total r

abbrev pub without : List ℕ → List (List ℕ × ℕ) → List (List ℕ × ℕ)
without name [] = []
without name ((n, s) ∷ r) =
    let rest = without name r in if bytes_eq n name then r else (n, s) ∷ rest

-- No name twice, and every size in 64 bits.
abbrev pub AreFiles : List (List ℕ × ℕ) → Type 0
AreFiles [] = Unit
AreFiles ((n, s) ∷ r) = (size_of n r ≡ none) × (s < 2 ^ 64) × AreFiles r

apart :
    (name other n : List ℕ)
    → bytes_eq n name ≡ false
    → bytes_eq n other ≡ true
    → bytes_eq name other ≡ false
apart name other n off e = elim (Bool-cases (bytes_eq name other)) [
  | inr ne ↦ ne
  | inl x ↦
      let same = eq_of_bytes_eq n other e ∙ sym (eq_of_bytes_eq name other x) in
      absurd (false≢true (sym off ∙ subst (λ t. bytes_eq n t ≡ true) same (bytes_eq_refl n)))
]

same_none : (b : Bool) → Path (Option ℕ) (if b then none else none) none
same_none true = refl
same_none false = refl

pub size_of-without :
    (name other : List ℕ) (files : List (List ℕ × ℕ))
    → AreFiles files
    → size_of other (without name files)
      ≡ (if bytes_eq name other then none else size_of other files)
size_of-without name other [] h = elim (Bool-cases (bytes_eq name other)) [
  | inl e ↦ rw e refl
  | inr e ↦ rw e refl
]
size_of-without name other ((n, s) ∷ r) h = elim (Bool-cases (bytes_eq n name)) [
  | inl at ↦
      let same = eq_of_bytes_eq n name at in
      elim (Bool-cases (bytes_eq name other)) [
        | inl e ↦
            rw (at, e) (subst (λ t. size_of t r ≡ none) (same ∙ eq_of_bytes_eq name other e) h.0)
        | inr e ↦ rw (at, e) (rw (subst (λ t. bytes_eq t other ≡ false) (sym same) e) refl)
      ]
  | inr off ↦ elim (Bool-cases (bytes_eq n other)) [
    | inl e ↦ rw (off, e) (rw (apart name other n off e) refl)
    | inr e ↦ rw (off, e) (size_of-without name other r h.2)
  ]
]

pub total-without :
    (name : List ℕ) (s : ℕ) (files : List (List ℕ × ℕ))
    → size_of name files ≡ some s
    → total files ≡ s + total (without name files)
total-without name s [] h = cc
total-without name s ((n, m) ∷ r) h = elim (Bool-cases (bytes_eq n name)) [
  | inl at ↦ let same : m ≡ s = eq_of_some (rw at at h) in rw (at, same) refl
  | inr off ↦
      let rest : size_of name r ≡ some s = rw off at h in
      rw off (omega (arith, total-without name s r rest))
]

pub size_of_bound :
    (name : List ℕ) (s : ℕ) (files : List (List ℕ × ℕ))
    → AreFiles files
    → size_of name files ≡ some s
    → s < 2 ^ 64
size_of_bound name s [] h e = cc
size_of_bound name s ((n, m) ∷ r) h e = elim (Bool-cases (bytes_eq n name)) [
  | inl at ↦ let same : m ≡ s = eq_of_some (rw at at e) in subst (λ t. t < 2 ^ 64) same h.1
  | inr off ↦ size_of_bound name s r h.2 (rw off at e)
]

pub without-AreFiles :
    (name : List ℕ) (files : List (List ℕ × ℕ)) → AreFiles files → AreFiles (without name files)
without-AreFiles name [] h = tt
without-AreFiles name ((n, s) ∷ r) h = elim (Bool-cases (bytes_eq n name)) [
  | inl at ↦ rw at h.2
  | inr off ↦ rw off (
    size_of-without name n r h.2 ∙ rw h.0 (same_none (bytes_eq name n)),
    h.1,
    without-AreFiles name r h.2,
  )
]

pub without-none :
    (name : List ℕ) (files : List (List ℕ × ℕ))
    → size_of name files ≡ none
    → without name files ≡ files
without-none name [] h = refl
without-none name ((n, s) ∷ r) h = elim (Bool-cases (bytes_eq n name)) [
  | inl at ↦ absurd (let never : some s ≡ none = rw at at h in cc)
  | inr off ↦ rw off (ap (λ t. (n, s) ∷ t) (without-none name r (rw off at h)))
]

pub size_of-without_self :
    (name : List ℕ) (files : List (List ℕ × ℕ))
    → AreFiles files
    → size_of name (without name files) ≡ none
size_of-without_self name files h = size_of-without name name files h ∙ rw (bytes_eq_refl name) refl

pub total-without_le :
    (name : List ℕ) (files : List (List ℕ × ℕ)) → total (without name files) ≤ total files
total-without_le name files = elim (Option-cases (size_of name files)) [
  | inl e ↦ rw (without-none name files e) (omega arith)
  | inr (s, e) ↦ omega (arith, total-without name s files e)
]
