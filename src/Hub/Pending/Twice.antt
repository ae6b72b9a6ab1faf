-- ===== src/Hub/Pending/Twice.antt =====
-- A submission that is queued twice in the pending list of pkg/grader/grpc/graderhub_service.go.
use autograder_server.Hub.Pending.Pushes.{Rising-append}
use autograder_server.Hub.Pending.Ranks.{IsValid, Rising}
use autograder_server.Hub.Pending.{
  GradeRequest, PendingList, remove_at, remove_pending_grade_request, push_pending_grade_queue,
  Element,
}
use autograder_server.Base.{
  lookup-delete_key, ◌∙◌, some, ◌+◌, ap, ◌==◌, lookup, ==_iff, ◌≡◌, ◌++◌, arith, ◌∷◌, [], none,
  false, refl, List, ℕ,
}
use autograder_server.Hub.Pending.Queue.{requests-push_pending_grade_queue, requests}

remove_at-last :
    (lo : ℕ) (r : List Element) (e : Element)
    → Rising lo e.address r
    → remove_at e.address (r ++ e ∷ []) ≡ r
remove_at-last lo [] e h = let here = (==_iff e.address e.address).1 refl in rw here refl
remove_at-last lo (p ∷ r) e h =
    let off : (p.address == e.address) ≡ false = ground (arith, h.1) in
    rw off (ap (λ t. p ∷ t) (remove_at-last (p.address + 1) r e h.2))

removed_indexed :
    (l : PendingList) (s a : ℕ)
    → lookup s l.queued_list_index ≡ some a
    → ((remove_pending_grade_request l s).0.queued_list ≡ remove_at a l.queued_list)
      × (lookup s (remove_pending_grade_request l s).0.queued_list_index ≡ none)
unfolding remove_pending_grade_request
removed_indexed l s a e =
    let here = (==_iff s s).1 refl in
    rw e (refl, lookup-delete_key s s l.queued_list_index ∙ rw here refl)

removed_unknown :
    (l : PendingList) (s : ℕ)
    → lookup s l.queued_list_index ≡ none
    → remove_pending_grade_request l s ≡ (l, [])
unfolding remove_pending_grade_request
removed_unknown l s e = rw e refl

last_indexed :
    (l : PendingList) (q : GradeRequest)
    → lookup q.submission_id (push_pending_grade_queue l q).0.queued_list_index
      ≡ some l.next_address
unfolding push_pending_grade_queue
last_indexed l q = let here = (==_iff q.submission_id q.submission_id).1 refl in rw here refl

push-Rising :
    (l : PendingList) (q : GradeRequest)
    → Rising 0 l.next_address l.queued_list
    → Rising 0
        (push_pending_grade_queue l q).0.next_address
        (push_pending_grade_queue l q).0.queued_list
unfolding push_pending_grade_queue
push-Rising l q h = Rising-append 0 l.next_address l.queued_list _ (omega arith) h refl

pushed-remove_at :
    (l : PendingList) (q : GradeRequest)
    → Rising 0 l.next_address l.queued_list
    → remove_at l.next_address (push_pending_grade_queue l q).0.queued_list ≡ l.queued_list
unfolding push_pending_grade_queue
pushed-remove_at l q h = remove_at-last 0 l.queued_list _ h

-- Of two requests queued one after the other on a valid list, a removal of the second's submission
-- takes the second alone, also if both are of one submission; the submission is not indexed then,
-- and to remove it once more does nothing.
pub pushed_twice_stays :
    (l : PendingList) (first second : GradeRequest)
    → IsValid l
    → let twice = (push_pending_grade_queue (push_pending_grade_queue l first).0 second).0 in
      let l' = (remove_pending_grade_request twice second.submission_id).0 in
      (requests l'.queued_list ≡ requests l.queued_list ++ first ∷ [])
      × (lookup second.submission_id l'.queued_list_index ≡ none)
      × (remove_pending_grade_request l' second.submission_id ≡ (l', []))
pushed_twice_stays l first second v =
    let once = (push_pending_grade_queue l first).0 in
    let twice = (push_pending_grade_queue once second).0 in
    let (taken, unknown) =
      removed_indexed twice second.submission_id once.next_address (last_indexed once second) in
    (
      ap requests (taken ∙ pushed-remove_at once second (push-Rising l first v.rising))
          ∙ requests-push_pending_grade_queue l first,
      unknown,
      removed_unknown (remove_pending_grade_request twice second.submission_id).0
          second.submission_id unknown,
    )
