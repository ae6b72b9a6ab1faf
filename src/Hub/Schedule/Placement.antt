-- ===== src/Hub/Schedule/Placement.antt =====
-- The inner loop of `schedulePass` of pkg/grader/grpc/graderhub_service.go: what becomes of one
-- request.
use autograder_server.Hub.Schedule.Remaining.{
  gone, length-delete_key_present, lookup-count_running, not_the_zero,
  length-delete_key-count_running, still_there,
}
use autograder_server.Hub.Pending.{remove_pending_grade_request}
use autograder_server.Hub.Outbox.{push, GradeRequestQueue}
use autograder_server.Hub.Pick.Best.{pick_grader-Picked, somebody, nobody, Picked, IsEligible}
use autograder_server.Hub.Schedule.{
  delivered, claimed, unclaimed, after_pick, try_grader, Placed, place_request,
}
use autograder_server.Repository.Grader.{claim_submission}
use autograder_server.Hub.Model.{GradeRequest}
use autograder_server.Hub.State.{Hub}
use autograder_server.Repository.Pebble.{Pebble}
use autograder_server.Hub.Pick.{GraderLoad, count_running, Loads}
use autograder_server.Hub.State.{hub_remove_pending}
use autograder_server.Base.{
  false≢true, zero, eq_of_some, subst, suc, insert, ==_iff, ap, ◌∙◌, some, true, Bool-cases, sym,
  ◌<◌, lookup, delete_key, ◌≡◌, length, ◌==◌, Option, inr, inl, none, false, refl, ℕ, arith,
}

-- What becomes of a request in a pass over graders with these loads. Kept: no eligible grader of
-- the loads has an open outbox. Handed over: to an eligible grader with an open outbox, claimed
-- for it, and off the pending list.
module _ (p : Pebble) {R : Type 0} where
  -- No grader of the loads that is eligible for the request has an open outbox.
  abbrev pub Idle : Hub p.Db R → Loads → GradeRequest → Type 0
  Idle h loads request =
      (j : ℕ) (l : GraderLoad) (queue : GradeRequestQueue)
      → lookup j loads ≡ some l
      → IsEligible request.tags l
      → lookup j h.grade_request_queues ≡ some queue
      → queue.closed ≡ true

  pub data Outcome (h : Hub p.Db R) (loads : Loads) (request : GradeRequest)
      : Placed p.Db R → Type 0 where
    kept :
        (h' : Hub p.Db R) (loads' : Loads)
        → h'.pending ≡ h.pending
        → h'.grade_request_queues ≡ h.grade_request_queues
        → Idle h loads request
        → ((j : ℕ) (l : GraderLoad) (queue : GradeRequestQueue)
            → lookup j loads ≡ some l
            → lookup j h.grade_request_queues ≡ some queue
            → queue.closed ≡ false
            → lookup j loads' ≡ some l)
        → Outcome h loads request (h', loads', false)
    handed :
        (h' : Hub p.Db R) (loads' : Loads) (id : ℕ) (k : GraderLoad) (queue : GradeRequestQueue)
        (d : p.Db)
        → lookup id loads ≡ some k
        → IsEligible request.tags k
        → lookup id h.grade_request_queues ≡ some queue
        → queue.closed ≡ false
        → h'.grade_request_queues ≡ insert id (push queue request).0 h.grade_request_queues
        → h'.db ≡ (claim_submission p d id request.submission_id).0
        → lookup request.submission_id h'.running_list ≡ some request
        → h'.pending ≡ (remove_pending_grade_request h.pending request.submission_id).0
        → Outcome h loads request (h', loads', true)

  abbrev pub Ends : Hub p.Db R → Loads → GradeRequest → Option (Placed p.Db R) → Type 0
  Ends h loads request o =
      (r : Placed p.Db R) × (o ≡ some r) × Outcome h loads request r × (lookup 0 r.1 ≡ none)

  -- The loop goes on without a grader that has no open outbox.
  widened :
      (h h' : Hub p.Db R) (loads : Loads) (request : GradeRequest) (id : ℕ) (r : Placed p.Db R)
      → h'.pending ≡ h.pending
      → h'.grade_request_queues ≡ h.grade_request_queues
      → ((queue : GradeRequestQueue)
          → lookup id h.grade_request_queues ≡ some queue
          → queue.closed ≡ true)
      → Outcome h' (delete_key id (count_running id loads)) request r
      → Outcome h loads request r
  widened h h' loads request id r same_pending same_queues closed (kept h2 loads2 e1 e2 all left) =
      kept h2 loads2 (e1 ∙ same_pending) (e2 ∙ same_queues)
        (λ j l queue el ok eq. elim (Bool-cases (id == j)) [
          | inl at ↦
              closed queue (ap (λ t. lookup t h.grade_request_queues) ((==_iff id j).0 at) ∙ eq)
          | inr other ↦
              all j l queue (still_there id j loads other ∙ el) ok (ap (lookup j) same_queues ∙ eq)
        ])
        (λ j l queue el eq open'. elim (Bool-cases (id == j)) [
          | inl at ↦ absurd (
              false≢true (
                sym open'
                ∙ closed queue
                    (ap (λ t. lookup t h.grade_request_queues) ((==_iff id j).0 at) ∙ eq)))
          | inr other ↦
              left j l queue (still_there id j loads other ∙ el) (ap (lookup j) same_queues ∙ eq)
                open'
        ])
  widened h h' loads request id r same_pending same_queues closed
        (handed h2 loads2 i k queue d el ok eq open' e1 e2 e3 e4) =
      elim (Bool-cases (id == i)) [
        | inl at ↦ gone id i k (count_running id loads) at el
        | inr other ↦
            handed h2 loads2 i k queue d (sym (still_there id i loads other) ∙ el) ok
              (ap (lookup i) (sym same_queues) ∙ eq) open'
              (e1 ∙ ap (insert i (push queue request).0) same_queues) e2 e3
              (e4 ∙ ap (λ t. (remove_pending_grade_request t request.submission_id).0) same_pending)
      ]

  module _ (h : Hub p.Db R) (request : GradeRequest)
      (go : Hub p.Db R → Loads → Option (Placed p.Db R)) where
    -- An unsuccessful attempt leaves the loop with one grader less.
    abbrev GoesOn : Loads → Type 0
    GoesOn loads =
        (h' : Hub p.Db R) (loads' : Loads)
        → length loads' < length loads
        → lookup 0 loads' ≡ none
        → Ends h' loads' request (go h' loads')

    next_grader :
        (h' : Hub p.Db R) (loads : Loads) (id : ℕ) (k : GraderLoad)
        → lookup id loads ≡ some k
        → lookup 0 loads ≡ none
        → (id == 0) ≡ false
        → GoesOn loads
        → h'.pending ≡ h.pending
        → h'.grade_request_queues ≡ h.grade_request_queues
        → ((queue : GradeRequestQueue)
            → lookup id h.grade_request_queues ≡ some queue
            → queue.closed ≡ true)
        → Ends h loads request (go h' (delete_key id (count_running id loads)))
    next_grader h' loads id k el zero_free not_zero ends e1 e2 closed =
        let rest =
          ends h' (delete_key id (count_running id loads))
            (subst (λ n. n < length loads) (sym (length-delete_key-count_running id loads))
              (length-delete_key_present id k loads el))
            (still_there id 0 loads not_zero ∙ zero_free) in
        (rest.0, rest.1, widened h h' loads request id rest.0 e1 e2 closed rest.2, rest.3)

    try_grader-Ends :
        (loads : Loads) (id : ℕ) (k : GraderLoad)
        → lookup id loads ≡ some k
        → IsEligible request.tags k
        → lookup 0 loads ≡ none
        → (id == 0) ≡ false
        → GoesOn loads
        → (o : Option GradeRequestQueue) → lookup id h.grade_request_queues ≡ o
        → Ends h loads request (
            try_grader p h id
              (count_running id loads)
              request
              o
              (λ h'. go h' (delete_key id (count_running id loads))))
    unfolding push hub_remove_pending
    try_grader-Ends loads id k el ok zero_free not_zero ends none eq =
        next_grader h loads id k el zero_free not_zero ends refl refl
          (λ queue found. let never : none ≡ some queue = sym eq ∙ found in cc)
    try_grader-Ends loads id k el ok zero_free not_zero ends (some queue) eq =
        elim (Bool-cases queue.closed) [
          | inl closed ↦ rw closed (
              next_grader (unclaimed p (claimed p h id request) request) loads id k el zero_free
                not_zero ends refl refl
                (λ q found. ap (λ t. t.closed) (eq_of_some (sym found ∙ eq)) ∙ closed))
          | inr open' ↦ rw open' (
            (
              delivered p (claimed p h id request) id (push queue request).0 request,
              count_running id loads,
              true,
            ),
            (rw open' refl),
            handed _ _ id k queue h.db el ok eq open' refl refl
                (rw (==_iff request.submission_id request.submission_id).1 refl) refl,
            lookup-count_running id 0 loads not_zero ∙ zero_free,
          )
        ]

    after_pick-Ends :
        (loads : Loads) (choice : ℕ × Loads)
        → Picked request loads choice
        → lookup 0 loads ≡ none
        → GoesOn loads
        → Ends h loads request (after_pick p h request choice go)
    after_pick-Ends loads _ (nobody none_eligible) zero_free ends = (
      (h, loads, false),
      refl,
      kept h loads refl refl (λ j l queue el ok eq. absurd (none_eligible j l el ok))
          (λ j l queue el eq open'. el),
      zero_free,
    )
    after_pick-Ends loads _ (somebody id k el ok least) zero_free ends =
        let not_zero = not_the_zero id k loads zero_free el in
        rw not_zero (
          try_grader-Ends loads id k el ok zero_free not_zero ends
            (lookup id h.grade_request_queues) refl)

  -- With more fuel than there are graders, none of which has the id 0, the search for a grader
  -- ends. Either it keeps the request, the list and the outboxes, and no eligible grader has an
  -- open outbox; or the request is in the open outbox of an eligible grader, claimed for it, in
  -- the running list and off the pending list.
  pub place_request-Outcome :
      (fuel : ℕ) (h : Hub p.Db R) (loads : Loads) (request : GradeRequest)
      → length loads < fuel
      → lookup 0 loads ≡ none
      → Ends h loads request (place_request p fuel h loads request)
  unfolding place_request
  place_request-Outcome zero h loads request enough zero_free = absurd (omega arith)
  place_request-Outcome (suc fuel) h loads request enough zero_free =
      after_pick-Ends h request (λ h' loads'. place_request p fuel h' loads' request) loads _
        (pick_grader-Picked request loads) zero_free
        (λ h' loads' less free. place_request-Outcome fuel h' loads' request (omega arith) free)
