-- ===== src/Hub/Schedule/Walk.antt =====
-- The cursor of `schedulePass` of pkg/grader/grpc/graderhub_service.go, and how it moves while
-- elements leave.
use autograder_server.Hub.Schedule.Cursor.{length-behind-remove_at, next_element}
use autograder_server.Hub.Schedule.{head_of}
use autograder_server.Hub.Pending.Ranks.{
  submission_at-remove_at, IsValid, Indexed, submission_at, Rising,
}
use autograder_server.Hub.Pending.{
  remove_at, behind, PendingList, remove_pending_grade_request, Element,
}
use autograder_server.Base.{
  ◌∙◌, eq_of_some, ◌==◌, ap, sym, Bool-cases, Option-cases, lookup, ==_iff, ◌≤◌, ◌<◌, ◌≡◌, length,
  ◌||◌, Bool, Option, ◌∷◌, [], inr, inl, some, none, false, true, refl, List, ℕ, arith,
}

Indexed-lookup :
    (a s : ℕ) (ix : List (ℕ × ℕ)) (q : List Element)
    → submission_at a q ≡ some s
    → Indexed ix q
    → lookup s ix ≡ some a
Indexed-lookup a s ix [] e h = cc
Indexed-lookup a s ix (p ∷ r) e h = elim (Bool-cases (p.address == a)) [
  | inl here ↦
      let mine : p.request.submission_id ≡ s = eq_of_some (rw here at e) in
      let same = (==_iff p.address a).0 here in cc
  | inr other ↦ Indexed-lookup a s ix r (rw other at e) h.1
]

-- What a removal by the submission of a queued element does.
pub removed :
    (l : PendingList) (e : Element)
    → IsValid l
    → submission_at e.address l.queued_list ≡ some e.request.submission_id
    → (remove_pending_grade_request l e.request.submission_id).0.queued_list
      ≡ remove_at e.address l.queued_list
unfolding remove_pending_grade_request
removed l e v at =
    rw
      (Indexed-lookup e.address e.request.submission_id l.queued_list_index l.queued_list at
        v.indexed)
      refl

-- Where the cursor stands: at an element of the list, with less than the fuel behind it.
abbrev pub At : ℕ → Option Element → List Element → Type 0
At fuel none q = Unit
At fuel (some e) q =
    (submission_at e.address q ≡ some e.request.submission_id)
    × (length (behind e.address q) < fuel)

abbrev pub from_cursor : Option Element → List Element → List Element
from_cursor none q = []
from_cursor (some e) q = e ∷ behind e.address q

pub or_false : (b : Bool) → (b || false) ≡ b
or_false b = ground arith

pub or_true : (b : Bool) → (b || true) ≡ true
or_true b = ground arith

nothing_behind : (q : List Element) → head_of q ≡ none → q ≡ []
nothing_behind [] e = refl
nothing_behind (p ∷ r) e = cc

pub next_At :
    (fuel a hi : ℕ) (q : List Element)
    → Rising 0 hi q
    → length (behind a q) ≤ fuel
    → At fuel (head_of (behind a q)) q × (from_cursor (head_of (behind a q)) q ≡ behind a q)
next_At fuel a hi q h less = elim (Option-cases (head_of (behind a q))) [
  | inl e ↦ rw e (tt, sym (nothing_behind (behind a q) e))
  | inr (f, e) ↦
      let next = next_element 0 hi a q f h e in
      let shrinks = ap length next.0 in rw e ((next.1, omega arith), sym next.0)
]

-- The cursor is moved on before its element leaves the list.
pub next_At-removed :
    (fuel a hi : ℕ) (q : List Element)
    → Rising 0 hi q
    → length (behind a q) ≤ fuel
    → At fuel (head_of (behind a q)) (remove_at a q)
next_At-removed fuel a hi q h less = elim (Option-cases (head_of (behind a q))) [
  | inl e ↦ rw e tt
  | inr (f, e) ↦
      let next = next_element 0 hi a q f h e in
      let shrinks = ap length next.0 in
      let still = length-behind-remove_at f.address a q in
      rw e (
        submission_at-remove_at a f.address q (λ same. omega (arith, same, next.2)) ∙ next.1,
        omega arith,
      )
]

pub whole : (q : List Element) → from_cursor (head_of q) q ≡ q
whole [] = refl
whole (p ∷ r) = rw ((==_iff p.address p.address).1 refl) refl

pub first_At : (q : List Element) → At (length q) (head_of q) q
first_At [] = tt
first_At (p ∷ r) = rw ((==_iff p.address p.address).1 refl) (refl, omega arith)
