-- ===== src/Hub/Schedule/Walked.antt =====
-- What is left of a pass of `schedulePass` of pkg/grader/grpc/graderhub_service.go, and how a step
-- adds to it.
use autograder_server.Hub.Schedule.Walk.{from_cursor}
use autograder_server.Hub.Schedule.Placement.{Idle}
use autograder_server.Hub.Schedule.{GradeRequest, GradeRequestQueue, head_of}
use autograder_server.Hub.Pick.{GraderLoad, Loads}
use autograder_server.Hub.Pending.Ranks.{IsValid}
use autograder_server.Hub.State.{Hub}
use autograder_server.Repository.Pebble.{Pebble}
use autograder_server.Hub.Pending.{behind, PendingList, Element}
use autograder_server.Base.{
  All-mono, false≢true, ◌∙◌, subst, ap, sym, Bool-cases, All, ◌⊎◌, lookup, ◌<◌, ◌≤◌, ◌≡◌, length,
  Bool, Option, inr, inl, some, false, true, refl, ℕ, arith,
}

module _ (p : Pebble) {R : Type 0} where
  -- What is left of a pass from the cursor on.
  pub record Walked (h : Hub p.Db R) (loads : Loads) (cur : Option Element) (progressed : Bool)
      (r : Hub p.Db R × Bool) : Type 0 where
    pub valid : IsValid r.0.pending
    pub shorter : length r.0.pending.queued_list ≤ length h.pending.queued_list
    pub stays : progressed ≡ true → r.1 ≡ true
    pub moved :
        r.1 ≡ true
        → (progressed ≡ true) ⊎ (length r.0.pending.queued_list < length h.pending.queued_list)
    pub idle :
        r.1 ≡ false
        → (r.0.pending ≡ h.pending)
          × All (λ (e : Element). Idle p h loads e.request) (from_cursor cur h.pending.queued_list)

  module _ (fuel : ℕ) (h : Hub p.Db R) (loads : Loads) (cur : Element) (progressed : Bool) where
    still-Idle :
        (h1 : Hub p.Db R) (loads1 : Loads) (request : GradeRequest)
        → h1.grade_request_queues ≡ h.grade_request_queues
        → ((j : ℕ) (l : GraderLoad) (queue : GradeRequestQueue)
            → lookup j loads ≡ some l
            → lookup j h.grade_request_queues ≡ some queue
            → queue.closed ≡ false
            → lookup j loads1 ≡ some l)
        → Idle p h1 loads1 request
        → Idle p h loads request
    still-Idle h1 loads1 request e2 left free j l queue el ok eq = elim (Bool-cases queue.closed) [
      | inl closed ↦ closed
      | inr open' ↦ free j l queue (left j l queue el eq open') ok (ap (lookup j) e2 ∙ eq)
    ]

    pub go_on-kept :
        (h1 : Hub p.Db R) (loads1 : Loads) (r : Hub p.Db R × Bool)
        → h1.pending ≡ h.pending
        → h1.grade_request_queues ≡ h.grade_request_queues
        → Idle p h loads cur.request
        → ((j : ℕ) (l : GraderLoad) (queue : GradeRequestQueue)
            → lookup j loads ≡ some l
            → lookup j h.grade_request_queues ≡ some queue
            → queue.closed ≡ false
            → lookup j loads1 ≡ some l)
        → from_cursor (head_of (behind cur.address h.pending.queued_list)) h.pending.queued_list
          ≡ behind cur.address h.pending.queued_list
        → Walked h1 loads1 (head_of (behind cur.address h.pending.queued_list)) progressed r
        → Walked h loads (some cur) progressed r
    go_on-kept h1 loads1 r e1 e2 idle left rest w = record {
      valid = w.valid;
      shorter =
          subst (λ (l : PendingList). length r.0.pending.queued_list ≤ length l.queued_list) e1
            w.shorter;
      stays = w.stays;
      moved =
          subst
            (λ (l : PendingList).
              r.1 ≡ true
              → (progressed ≡ true) ⊎ (length r.0.pending.queued_list < length l.queued_list))
            e1 w.moved;
      idle = λ none_placed. (
        (w.idle none_placed).0 ∙ e1,
        (
          idle,
          All-mono (λ (e : Element). Idle p h1 loads1 e.request)
              (λ (e : Element). Idle p h loads e.request)
              (λ e free. still-Idle h1 loads1 e.request e2 left free)
              (behind cur.address h.pending.queued_list)
              (subst (All (λ (e : Element). Idle p h1 loads1 e.request)) rest (
                subst
                  (λ (l : PendingList).
                    All (λ (e : Element). Idle p h1 loads1 e.request)
                      (from_cursor (head_of (behind cur.address h.pending.queued_list))
                        l.queued_list))
                  e1 (w.idle none_placed).1)),
        ),
      );
    }

    pub go_on-handed :
        (h1 : Hub p.Db R) (loads1 : Loads) (next : Option Element) (r : Hub p.Db R × Bool)
        → length h1.pending.queued_list < length h.pending.queued_list
        → Walked h1 loads1 next true r
        → Walked h loads (some cur) progressed r
    go_on-handed h1 loads1 next r less w = record {
      valid = w.valid;
      shorter = omega (arith, w.shorter);
      stays = λ h. w.stays refl;
      moved = λ h. inr (omega (arith, w.shorter));
      idle = λ none_placed. absurd (false≢true (sym none_placed ∙ w.stays refl));
    }
