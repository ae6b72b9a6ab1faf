-- ===== src/Hub/Pending/Queue.antt =====
-- The pending list of pkg/grader/grpc/graderhub_service.go against a plain queue of requests.
use autograder_server.Base.{
  lookup, subst, ==_iff, ◌∙◌, eq_of_some, sym, Option-cases, ◌≢◌, Bool-cases, ap, ◌<◌, length,
  if◌then◌else◌, ◌+◌, ◌++◌, ◌==◌, ◌≡◌, Option, List, ℕ, arith, ◌∷◌, [], inr, inl, some, none, false,
  suc, refl,
}
use autograder_server.Hub.Model.{GradeRequest}
use autograder_server.Hub.Pending.{
  Element, PendingList, lower_ranks, remove_at, rank_at, remove_pending_grade_request,
  push_pending_grade_queue, get_pending_rank,
}
use autograder_server.Hub.Pending.Ranks.{IsValid, Ranked, Rising, Indexed, submission_at}

abbrev pub requests : List Element → List GradeRequest
requests [] = []
requests (p ∷ r) = p.request ∷ requests r

-- The queue with the requests of one submission taken out.
abbrev pub without : ℕ → List GradeRequest → List GradeRequest
without s [] = []
without s (q ∷ r) = let rest = without s r in if q.submission_id == s then rest else q ∷ rest

-- The place of a submission in the queue, counted from k; 0 if it is not there.
abbrev pub position : ℕ → ℕ → List GradeRequest → ℕ
position k s [] = 0
position k s (q ∷ r) = let rest = position (k + 1) s r in if q.submission_id == s then k else rest

-- What a client is told: the place and the length, or twice 0.
abbrev pub place : ℕ → List GradeRequest → ℕ × ℕ
place s q = (position 1 s q, if position 1 s q == 0 then 0 else length q)

requests-lower_ranks : (r : List Element) → requests (lower_ranks r) ≡ requests r
requests-lower_ranks [] = refl
requests-lower_ranks (p ∷ r) = ap (λ t. p.request ∷ t) (requests-lower_ranks r)

-- No element of the list belongs to the submission.
abbrev pub Absent : ℕ → List Element → Type 0
Absent s [] = Unit {0}
Absent s (p ∷ r) = ((p.request.submission_id == s) ≡ false) × Absent s r

pub Absent-without : (s : ℕ) (r : List Element) → Absent s r → without s (requests r) ≡ requests r
Absent-without s [] h = refl
Absent-without s (p ∷ r) h = rw h.0 (ap (λ t. p.request ∷ t) (Absent-without s r h.1))

Absent-position : (k s : ℕ) (r : List Element) → Absent s r → position k s (requests r) ≡ 0
Absent-position k s [] h = refl
Absent-position k s (p ∷ r) h = rw h.0 (Absent-position (k + 1) s r h.1)

other_submission :
    (s : ℕ) (ix : List (ℕ × ℕ)) (p : Element) (o : Option ℕ)
    → lookup s ix ≡ o
    → lookup p.request.submission_id ix ≡ some p.address
    → o ≢ some p.address
    → (p.request.submission_id == s) ≡ false
other_submission s ix p o e h ne = elim (Bool-cases (p.request.submission_id == s)) [
  | inl same ↦ absurd (ne (sym e ∙ ap (λ t. lookup t ix) (sym ((==_iff _ _).0 same)) ∙ h))
  | inr other ↦ other
]

pub Indexed-Absent :
    (s : ℕ) (ix : List (ℕ × ℕ)) (r : List Element) → lookup s ix ≡ none → Indexed ix r → Absent s r
Indexed-Absent s ix [] e h = tt
Indexed-Absent s ix (p ∷ r) e h =
    (other_submission s ix p none e h.0 (λ x. cc), Indexed-Absent s ix r e h.1)

behind-Absent :
    (s a hi : ℕ) (ix : List (ℕ × ℕ)) (lo : ℕ) (r : List Element)
    → lookup s ix ≡ some a
    → a < lo
    → Rising lo hi r
    → Indexed ix r
    → Absent s r
behind-Absent s a hi ix lo [] e lt h k = tt
behind-Absent s a hi ix lo (p ∷ r) e lt h k = (
  other_submission s ix p (some a) e k.0 (λ x. omega (arith, eq_of_some x, h.0)),
  behind-Absent s a hi ix (p.address + 1) r e (omega (arith, h.0)) h.2 k.1,
)

requests-remove_at :
    (s a hi : ℕ) (ix : List (ℕ × ℕ)) (lo : ℕ) (r : List Element)
    → lookup s ix ≡ some a
    → submission_at a r ≡ some s
    → Rising lo hi r
    → Indexed ix r
    → requests (remove_at a r) ≡ without s (requests r)
requests-remove_at s a hi ix lo [] e at h k = refl
requests-remove_at s a hi ix lo (p ∷ r) e at h k = elim (Bool-cases (p.address == a)) [
  | inl here ↦
      let mine : p.request.submission_id ≡ s = eq_of_some (rw here at at) in
      let gone = behind-Absent s a hi ix (p.address + 1) r e (ground arith) h.2 k.1 in
      rw (here, (==_iff _ _).1 mine) (requests-lower_ranks r ∙ sym (Absent-without s r gone))
  | inr other ↦
      let ne = other_submission s ix p (some a) e k.0 (λ x. ground (arith, eq_of_some x)) in
      rw (other, ne)
        (ap (λ t. p.request ∷ t)
          (requests-remove_at s a hi ix (p.address + 1) r e (rw other at at) h.2 k.1))
]

rank_at-position :
    (s a hi : ℕ) (ix : List (ℕ × ℕ)) (lo n : ℕ) (r : List Element)
    → lookup s ix ≡ some a
    → submission_at a r ≡ some s
    → Rising lo hi r
    → Indexed ix r
    → Ranked (suc n) r
    → (rank_at a r ≡ position (suc n) s (requests r)) × (0 < position (suc n) s (requests r))
rank_at-position s a hi ix lo n [] e at h k g = cc
rank_at-position s a hi ix lo n (p ∷ r) e at h k g = elim (Bool-cases (p.address == a)) [
  | inl here ↦
      let mine : p.request.submission_id ≡ s = eq_of_some (rw here at at) in
      rw (here, (==_iff _ _).1 mine) (g.0, omega arith)
  | inr other ↦
      let ne = other_submission s ix p (some a) e k.0 (λ x. ground (arith, eq_of_some x)) in
      rw (other, ne)
        (subst (λ t. (rank_at a r ≡ position t s (requests r)) × (0 < position t s (requests r)))
          (omega arith)
          (rank_at-position s a hi ix (p.address + 1) (suc n) r e (rw other at at) h.2 k.1
            (subst (λ t. Ranked t r) (omega arith) g.1)))
]

length-requests : (r : List Element) → length (requests r) ≡ length r
length-requests [] = refl
length-requests (p ∷ r) = ap suc (length-requests r)

-- On a valid list a removal takes exactly the requests of the submission out of the queue and
-- keeps the order.
pub requests-remove_pending_grade_request :
    (l : PendingList) (s : ℕ)
    → IsValid l
    → requests (remove_pending_grade_request l s).0.queued_list ≡ without s (requests l.queued_list)
unfolding remove_pending_grade_request
requests-remove_pending_grade_request l s v = elim (Option-cases (lookup s l.queued_list_index)) [
  | inl e ↦ rw e (sym (Absent-without s _ (Indexed-Absent s _ _ e v.indexed)))
  | inr (a, e) ↦
      rw e (requests-remove_at s a l.next_address _ 0 _ e (v.present s a e) v.rising v.indexed)
]

requests-append :
    (r : List Element) (p : Element) → requests (r ++ p ∷ []) ≡ requests r ++ p.request ∷ []
requests-append [] p = refl
requests-append (q ∷ r) p = ap (λ t. q.request ∷ t) (requests-append r p)

-- Queueing puts the request at the end, whatever is in the list.
pub requests-push_pending_grade_queue :
    (l : PendingList) (request : GradeRequest)
    → requests (push_pending_grade_queue l request).0.queued_list
      ≡ requests l.queued_list ++ request ∷ []
unfolding push_pending_grade_queue
requests-push_pending_grade_queue l request = requests-append l.queued_list _

-- On a valid list the rank and the total that a client reads are the place in the queue and its
-- length, and both 0 for a submission that is not queued.
pub get_pending_rank-place :
    (l : PendingList) (s : ℕ) → IsValid l → get_pending_rank l s ≡ place s (requests l.queued_list)
unfolding get_pending_rank
get_pending_rank-place l s v = elim (Option-cases (lookup s l.queued_list_index)) [
  | inl e ↦ rw (e, Absent-position 1 s _ (Indexed-Absent s _ _ e v.indexed)) refl
  | inr (a, e) ↦
      let (same, some_place) =
        rank_at-position s a l.next_address _ 0 0 _ e (v.present s a e) v.rising v.indexed
          v.ranked in
      rw e (ground (arith, same, some_place, length-requests l.queued_list))
]
