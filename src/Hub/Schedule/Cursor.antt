-- ===== src/Hub/Schedule/Cursor.antt =====
-- What lies behind an element of the pending list of pkg/grader/grpc/graderhub_service.go, for the
-- cursor of `schedulePass`.
use autograder_server.Hub.Schedule.{head_of}
use autograder_server.Hub.Pending.Ranks.{submission_at, Rising}
use autograder_server.Hub.Pending.{remove_at, lower_ranks, behind, Element}
use autograder_server.Base.{
  eq_of_some, ◌∙◌, subst, ◌+◌, ap, ◌<◌, Bool-cases, ◌≡◌, ◌≤◌, ◌==◌, length, false, true, ◌∷◌, [],
  inr, inl, some, suc, refl, List, ℕ, arith,
}

pub length-lower_ranks : (r : List Element) → length (lower_ranks r) ≡ length r
length-lower_ranks [] = refl
length-lower_ranks (p ∷ r) = ap suc (length-lower_ranks r)

length-behind : (a : ℕ) (q : List Element) → length (behind a q) ≤ length q
length-behind a [] = omega arith
length-behind a (p ∷ r) = ground (arith, length-behind a r)

behind-lower_ranks :
    (a : ℕ) (q : List Element) → behind a (lower_ranks q) ≡ lower_ranks (behind a q)
behind-lower_ranks a [] = refl
behind-lower_ranks a (p ∷ r) = elim (Bool-cases (p.address == a)) [
  | inl here ↦ rw here refl
  | inr other ↦ rw other (behind-lower_ranks a r)
]

length-remove_at : (a : ℕ) (q : List Element) → length (remove_at a q) ≤ length q
length-remove_at a [] = omega arith
length-remove_at a (p ∷ r) = ground (arith, length-lower_ranks r, length-remove_at a r)

pub length-remove_at_present :
    (a s : ℕ) (q : List Element) → submission_at a q ≡ some s → length (remove_at a q) < length q
length-remove_at_present a s [] e = cc
length-remove_at_present a s (p ∷ r) e = elim (Bool-cases (p.address == a)) [
  | inl here ↦ rw here (let same = length-lower_ranks r in omega arith)
  | inr other ↦ let below = length-remove_at_present a s r (rw other at e) in rw other (omega arith)
]

pub length-behind-remove_at :
    (x a : ℕ) (q : List Element) → length (behind x (remove_at a q)) ≤ length (behind x q)
length-behind-remove_at x a [] = omega arith
length-behind-remove_at x a (p ∷ r) = elim (Bool-cases (p.address == a)) [
  | inl here ↦
      let same : length (behind x (lower_ranks r)) ≡ length (behind x r) =
        ap length (behind-lower_ranks x r) ∙ length-lower_ranks (behind x r) in
      let less = length-behind x r in
      elim (Bool-cases (p.address == x)) [
        | inl at ↦ rw here (rw at (omega arith))
        | inr off ↦ rw here (rw off (omega arith))
      ]
  | inr other ↦
      let rest = length-behind-remove_at x a r in
      let less = length-remove_at a r in
      elim (Bool-cases (p.address == x)) [
        | inl at ↦ rw other (rw at (less))
        | inr off ↦ rw other (rw off (rest))
      ]
]

follows :
    (lo hi a : ℕ) (p : Element) (r : List Element) (e : Element)
    → Rising lo hi (p ∷ r)
    → (p.address == a) ≡ true
    → head_of r ≡ some e
    → (r ≡ e ∷ behind e.address (p ∷ r))
      × (submission_at e.address (p ∷ r) ≡ some e.request.submission_id)
      × (a < e.address)
      × (lo < e.address)
follows lo hi a p [] e h here at = cc
follows lo hi a p (f ∷ r) e h here at =
    subst
      (λ e.
        (f ∷ r ≡ e ∷ behind e.address (p ∷ f ∷ r))
        × (submission_at e.address (p ∷ f ∷ r) ≡ some e.request.submission_id)
        × (a < e.address)
        × (lo < e.address))
      (eq_of_some at)
      (let off : (p.address == f.address) ≡ false = ground (arith, h.2.0) in
        let on : (f.address == f.address) ≡ true = ground arith in
        rw (off, on) (refl, refl, ground (arith, h.2.0), omega (arith, h.0, h.2.0)))

-- What follows an element stands behind it, at a greater address, and leads on to the rest.
pub next_element :
    (lo hi a : ℕ) (q : List Element) (e : Element)
    → Rising lo hi q
    → head_of (behind a q) ≡ some e
    → (behind a q ≡ e ∷ behind e.address q)
      × (submission_at e.address q ≡ some e.request.submission_id)
      × (a < e.address)
      × (lo < e.address)
next_element lo hi a [] e h at = cc
next_element lo hi a (p ∷ r) e h at = elim (Bool-cases (p.address == a)) [
  | inl here ↦ rw here (follows lo hi a p r e h here (rw here at at))
  | inr other ↦
      let next = next_element (p.address + 1) hi a r e h.2 (rw other at at) in
      let off : (p.address == e.address) ≡ false = ground (arith, next.3) in
      rw (other, off) (next.0, next.1, next.2, omega (arith, next.3, h.0))
]
