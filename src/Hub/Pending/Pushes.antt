-- ===== src/Hub/Pending/Pushes.antt =====
-- `pushPendingGradeQueue` of pkg/grader/grpc/graderhub_service.go and the validity of the pending
-- list.
use autograder_server.Hub.Pending.Ranks.{IsValid}
use autograder_server.Hub.Pending.Ranks.{Ranked, submission_at, Indexed, Rising}
use autograder_server.Base.{
  lookup, subst, ◌++◌, eq_of_some, length, ==_iff, ap, ◌∙◌, Bool-cases, arith, inr, inl, none, refl,
  ◌+◌, ◌≡◌, ◌≤◌, ◌==◌, List, ℕ, ◌∷◌, [], some,
}
use autograder_server.Hub.Model.{GradeRequest}
use autograder_server.Hub.Pending.{Element, PendingList, push_pending_grade_queue}

Ranked-append :
    (k : ℕ) (r : List Element) (p : Element)
    → Ranked k r
    → p.rank ≡ k + length r
    → Ranked k (r ++ p ∷ [])
Ranked-append k [] p h e = (omega arith, tt)
Ranked-append k (q ∷ r) p h e = (h.0, Ranked-append (k + 1) r p h.1 (omega arith))

pub Rising-append :
    (lo hi : ℕ) (r : List Element) (p : Element)
    → lo ≤ hi
    → Rising lo hi r
    → p.address ≡ hi
    → Rising lo (hi + 1) (r ++ p ∷ [])
Rising-append lo hi [] p le h e = (omega arith, omega arith, tt)
Rising-append lo hi (q ∷ r) p le h e =
    (h.0, omega (arith, h.1), Rising-append (q.address + 1) hi r p (omega (arith, h.1)) h.2 e)

index_added :
    (ix : List (ℕ × ℕ)) (s a j b : ℕ)
    → lookup s ix ≡ none
    → lookup j ix ≡ some b
    → lookup j ((s, a) ∷ ix) ≡ some b
index_added ix s a j b free h = elim (Bool-cases (s == j)) [
  | inl same ↦ cc (ap (λ t. lookup t ix) ((==_iff s j).0 same))
  | inr other ↦ rw other h
]

Indexed-append :
    (ix : List (ℕ × ℕ)) (s a : ℕ) (r : List Element) (p : Element)
    → lookup s ix ≡ none
    → p.request.submission_id ≡ s
    → p.address ≡ a
    → Indexed ix r
    → Indexed ((s, a) ∷ ix) (r ++ p ∷ [])
Indexed-append ix s a [] p free es ea h = (ground arith, tt)
Indexed-append ix s a (q ∷ r) p free es ea h = (
  index_added ix s a q.request.submission_id q.address free h.0,
  Indexed-append ix s a r p free es ea h.1,
)

submission_at-append :
    (a : ℕ) (r : List Element) (p : Element) (s : ℕ)
    → submission_at a r ≡ some s
    → submission_at a (r ++ p ∷ []) ≡ some s
submission_at-append a [] p s h = cc
submission_at-append a (q ∷ r) p s h = ground (arith, submission_at-append a r p s)

submission_at-last :
    (lo hi : ℕ) (r : List Element) (p : Element)
    → Rising lo hi r
    → p.address ≡ hi
    → submission_at hi (r ++ p ∷ []) ≡ some p.request.submission_id
submission_at-last lo hi [] p h e = ground arith
submission_at-last lo hi (q ∷ r) p h e =
    ground (arith, submission_at-last (q.address + 1) hi r p h.2 e)

present_pushed :
    (l : PendingList) (p : Element) (j b : ℕ)
    → IsValid l
    → p.address ≡ l.next_address
    → lookup j ((p.request.submission_id, l.next_address) ∷ l.queued_list_index) ≡ some b
    → submission_at b (l.queued_list ++ p ∷ []) ≡ some j
present_pushed l p j b v e h = elim (Bool-cases (p.request.submission_id == j)) [
  | inl same ↦
      let last = submission_at-last 0 l.next_address l.queued_list p v.rising e in
      let at : l.next_address ≡ b = eq_of_some (rw same at h) in
      subst (λ t. submission_at t (l.queued_list ++ p ∷ []) ≡ some j) at
        (last ∙ ap some ((==_iff _ _).0 same))
  | inr other ↦ submission_at-append b l.queued_list p j (v.present j b (rw other at h))
]

-- Queueing a submission that is not indexed keeps a valid list valid.
pub push_pending_grade_queue-IsValid :
    (l : PendingList) (request : GradeRequest)
    → IsValid l
    → lookup request.submission_id l.queued_list_index ≡ none
    → IsValid (push_pending_grade_queue l request).0
unfolding push_pending_grade_queue
push_pending_grade_queue-IsValid l request v free = record {
  ranked = Ranked-append 1 l.queued_list _ v.ranked (omega arith);
  rising = Rising-append 0 l.next_address l.queued_list _ (omega arith) v.rising refl;
  indexed =
      Indexed-append l.queued_list_index request.submission_id l.next_address l.queued_list _ free
        refl refl v.indexed;
  present = λ j b h.
      present_pushed l
        (record { address = l.next_address; rank = length l.queued_list + 1; request = request }) j
        b v refl h;
}
