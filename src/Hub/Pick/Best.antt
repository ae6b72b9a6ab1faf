-- ===== src/Hub/Pick/Best.antt =====
-- `pickGrader` of pkg/grader/grpc/graderhub_service.go against what the best choice is.
use autograder_server.Base.{
  lookup, sym, subst, false≢true, ◌||◌, Bool-cases, ◌==◌, contains, inl, leb, arith, inr, false,
  true, refl, ◌≡◌, ◌⊎◌, ◌≤◌, ◌<◌, Option, List, ℕ, ◌∷◌, [], some, none,
}
use autograder_server.Hub.Model.{GradeRequest}
use autograder_server.Hub.Pick.{
  is_less_loaded, GraderLoad, Loads, grader_has_tags, sorted_ids, insert_id, Candidate, consider,
  pick_loop, pick_grader, count_running, picked,
}

-- Spare capacity, and every tag of the request.
abbrev pub IsEligible : List (List ℕ) → GraderLoad → Type 0
IsEligible request_tags l =
    (l.running < l.concurrency) × (grader_has_tags l.tags request_tags ≡ true)

-- No better choice than `c` for the load of grader `id`.
abbrev pub NotBetter : List (List ℕ) → Option Candidate → ℕ → GraderLoad → Type 0
NotBetter tags none id l = IsEligible tags l → ⊥
NotBetter tags (some c) id l =
    IsEligible tags l
    → (c.load.running < l.running) ⊎ ((c.load.running ≡ l.running) × (c.best ≤ id))

-- The ids seen so far are below the ones to come.
abbrev Ascending : ℕ → List ℕ → Type 0
Ascending lo [] = Unit {0}
Ascending lo (a ∷ r) = (lo ≤ a) × Ascending a r

abbrev BestBelow : ℕ → Option Candidate → Type 0
BestBelow lo none = Unit {0}
BestBelow lo (some c) = c.best ≤ lo

-- A round takes the grader exactly when it is eligible and less loaded.
consider_cases :
    (tags : List (List ℕ)) (id : ℕ) (l : GraderLoad) (c : Option Candidate)
    → ((consider tags id (some l) c ≡ c) × (IsEligible tags l → is_less_loaded l c ≡ false))
      ⊎ ((consider tags id (some l) c ≡ some (record { best = id; load = l }))
          × (IsEligible tags l)
          × (is_less_loaded l c ≡ true))
consider_cases tags id l c = elim (Bool-cases (leb l.concurrency l.running)) [
  | inl full ↦ inl (rw full, λ el. absurd (ground arith))
  | inr room ↦ elim (Bool-cases (grader_has_tags l.tags tags)) [
    | inr lacks ↦ inl (rw (room, lacks), λ el. absurd (ground arith))
    | inl has ↦ elim (Bool-cases (is_less_loaded l c)) [
      | inl less ↦ inr (rw (room, has, less), (ground arith, has), less)
      | inr more ↦ inl (rw (room, has, more), λ el. more)
    ]
  ]
]

-- The round at grader `id` leaves no better choice there.
consider-NotBetter :
    (tags : List (List ℕ)) (id : ℕ) (l : GraderLoad) (c : Option Candidate)
    → BestBelow id c
    → NotBetter tags (consider tags id (some l) c) id l
consider-NotBetter tags id l none below = elim (consider_cases tags id l none) [
  | inl (e, h) ↦ rw e (λ el. absurd (false≢true (sym (h el))))
  | inr (e, el, _) ↦ rw e (λ _. inr (refl, omega arith))
]
consider-NotBetter tags id l (some c) below = elim (consider_cases tags id l (some c)) [
  | inl (e, h) ↦ rw e (λ el. let more = h el in ground arith)
  | inr (e, el, _) ↦ rw e (λ _. inr (refl, omega arith))
]

-- A round keeps what was no better no better.
consider_keeps :
    (tags : List (List ℕ)) (id : ℕ) (o : Option GraderLoad) (c : Option Candidate) (j : ℕ)
    (l : GraderLoad)
    → NotBetter tags c j l
    → NotBetter tags (consider tags id o c) j l
consider_keeps tags id none c j l h = h
consider_keeps tags id (some k) none j l h = elim (consider_cases tags id k none) [
  | inl (e, _) ↦ rw e h
  | inr (e, _, _) ↦ rw e (λ el. absurd (h el))
]
consider_keeps tags id (some k) (some c) j l h = elim (consider_cases tags id k (some c)) [
  | inl (e, _) ↦ rw e h
  | inr (e, _, less) ↦ rw e (λ el. let was = h el in ground arith)
]

pick_loop_keeps :
    (tags : List (List ℕ)) (loads : Loads) (ids : List ℕ) (c : Option Candidate) (j : ℕ)
    (l : GraderLoad)
    → NotBetter tags c j l
    → NotBetter tags (pick_loop tags loads ids c) j l
unfolding pick_loop
pick_loop_keeps tags loads [] c j l h = h
pick_loop_keeps tags loads (id ∷ ids) c j l h =
    pick_loop_keeps tags loads ids _ j l (consider_keeps tags id (lookup id loads) c j l h)

consider-BestBelow :
    (tags : List (List ℕ)) (id : ℕ) (o : Option GraderLoad) (c : Option Candidate)
    → BestBelow id c
    → BestBelow id (consider tags id o c)
consider-BestBelow tags id none c h = h
consider-BestBelow tags id (some k) c h = elim (consider_cases tags id k c) [
  | inl (e, _) ↦ rw e h
  | inr (e, _, _) ↦ rw e (omega arith)
]

BestBelow-mono : (a b : ℕ) (c : Option Candidate) → a ≤ b → BestBelow a c → BestBelow b c
BestBelow-mono a b none h k = tt
BestBelow-mono a b (some c) h k = omega arith

pick_loop-NotBetter :
    (tags : List (List ℕ)) (loads : Loads) (lo : ℕ) (ids : List ℕ) (c : Option Candidate) (j : ℕ)
    (l : GraderLoad)
    → Ascending lo ids
    → BestBelow lo c
    → contains j ids ≡ true
    → lookup j loads ≡ some l
    → NotBetter tags (pick_loop tags loads ids c) j l
unfolding pick_loop
pick_loop-NotBetter tags loads lo [] c j l asc below m e = absurd (false≢true m)
pick_loop-NotBetter tags loads lo (id ∷ ids) c j l asc below m e = elim (Bool-cases (id == j)) [
  | inl here ↦
      let at : id ≡ j = ground arith in
      let below' = BestBelow-mono lo id c asc.0 below in
      pick_loop_keeps tags loads ids _ j l (
        rw (subst (λ t. lookup t loads ≡ some l) (sym at) e) (
          subst (λ t. NotBetter tags (consider tags id (some l) c) t l) at
            (consider-NotBetter tags id l c below')))
  | inr later ↦
      pick_loop-NotBetter tags loads id ids _ j l asc.1
        (consider-BestBelow tags id (lookup id loads) c (BestBelow-mono lo id c asc.0 below))
        (rw later at m) e
]

insert_id-Ascending :
    (lo a : ℕ) (ids : List ℕ) → lo ≤ a → Ascending lo ids → Ascending lo (insert_id a ids)
unfolding insert_id
insert_id-Ascending lo a [] h k = (h, tt)
insert_id-Ascending lo a (b ∷ r) h k = ground (arith, insert_id-Ascending b a r)

contains-insert_id :
    (a j : ℕ) (ids : List ℕ) → contains j (insert_id a ids) ≡ (a == j || contains j ids)
unfolding insert_id
contains-insert_id a j [] = refl
contains-insert_id a j (b ∷ r) = ground (arith, contains-insert_id a j r)

sorted_ids-Ascending : (loads : Loads) → Ascending 0 (sorted_ids loads)
unfolding sorted_ids
sorted_ids-Ascending [] = tt
sorted_ids-Ascending ((j, l) ∷ r) =
    insert_id-Ascending 0 j (sorted_ids r) (omega arith) (sorted_ids-Ascending r)

contains-sorted_ids :
    (j : ℕ) (l : GraderLoad) (loads : Loads)
    → lookup j loads ≡ some l
    → contains j (sorted_ids loads) ≡ true
unfolding sorted_ids
contains-sorted_ids j l [] e = cc
contains-sorted_ids j l ((i, k) ∷ r) e =
    rw contains-insert_id (ground (arith, contains-sorted_ids j l r))

-- The candidate is a grader of the map that is eligible.
abbrev pub IsChoice : List (List ℕ) → Loads → Option Candidate → Type 0
IsChoice tags loads none = Unit {0}
IsChoice tags loads (some c) = (lookup c.best loads ≡ some c.load) × IsEligible tags c.load

consider-IsChoice :
    (tags : List (List ℕ)) (loads : Loads) (id : ℕ) (o : Option GraderLoad) (c : Option Candidate)
    → lookup id loads ≡ o
    → IsChoice tags loads c
    → IsChoice tags loads (consider tags id o c)
consider-IsChoice tags loads id none c e h = h
consider-IsChoice tags loads id (some k) c e h = elim (consider_cases tags id k c) [
  | inl (e', _) ↦ rw e' h
  | inr (e', el, _) ↦ rw e' (e, el)
]

pick_loop-IsChoice :
    (tags : List (List ℕ)) (loads : Loads) (ids : List ℕ) (c : Option Candidate)
    → IsChoice tags loads c
    → IsChoice tags loads (pick_loop tags loads ids c)
unfolding pick_loop
pick_loop-IsChoice tags loads [] c h = h
pick_loop-IsChoice tags loads (id ∷ ids) c h =
    pick_loop-IsChoice tags loads ids _ (consider-IsChoice tags loads id (lookup id loads) c refl h)

-- What a pick says: no grader of the map is eligible; or the grader is eligible, no eligible one
-- runs fewer submissions, and of those that run as many its id is the least.
pub data Picked (request : GradeRequest) (loads : Loads) : ℕ × Loads → Type 0 where
  nobody :
      ((j : ℕ) (l : GraderLoad) → lookup j loads ≡ some l → ¬ IsEligible request.tags l)
      → Picked request loads (0, loads)
  somebody :
      (id : ℕ) (k : GraderLoad)
      → lookup id loads ≡ some k
      → IsEligible request.tags k
      → ((j : ℕ) (l : GraderLoad)
          → lookup j loads ≡ some l
          → IsEligible request.tags l
          → (k.running < l.running) ⊎ ((k.running ≡ l.running) × (id ≤ j)))
      → Picked request loads (id, count_running id loads)

picked-Picked :
    (request : GradeRequest) (loads : Loads) (c : Option Candidate)
    → IsChoice request.tags loads c
    → ((j : ℕ) (l : GraderLoad) → lookup j loads ≡ some l → NotBetter request.tags c j l)
    → Picked request loads (picked loads c)
picked-Picked request loads none choice best = nobody best
picked-Picked request loads (some c) choice best = somebody c.best c.load choice.0 choice.1 best

-- The picked grader is the least loaded eligible one, ties broken by the id, and its load is
-- counted up; 0 with the loads unchanged is returned only when no grader is eligible.
pub pick_grader-Picked :
    (request : GradeRequest) (loads : Loads) → Picked request loads (pick_grader request loads)
unfolding pick_grader
pick_grader-Picked request loads =
    picked-Picked request loads _ (pick_loop-IsChoice request.tags loads (sorted_ids loads) none tt)
      (λ j l e.
        pick_loop-NotBetter request.tags loads 0 (sorted_ids loads) none j l
          (sorted_ids-Ascending loads) tt (contains-sorted_ids j l loads e) e)
