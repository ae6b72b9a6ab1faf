-- ===== src/Hub/Outbox/Delivery.antt =====
-- Histories of an outbox of pkg/grader/grpc/graderhub_service.go: what it accepts, and what is
-- taken out.
use mathlib.Core.List.{append_assoc, append-nil}
use autograder_server.Base.{
  ◌∙◌, ap, sym, Bool, false, refl, ◌++◌, ◌≡◌, if◌then◌else◌, List, arith, ◌∷◌, [], true,
}
use autograder_server.Hub.Model.{GradeRequest}
use autograder_server.Hub.Outbox.{
  waited, drained, ended, waits, GradeRequestQueue, close, push, drain, wait_and_drain, Waited,
}

pub data Event : Type 0 where
  pushes : GradeRequest → Event
  closes drains waits_and_drains : Event

unfoldable pub step : GradeRequestQueue → Event → GradeRequestQueue
unfolding close push drain wait_and_drain
step q (pushes r) = (push q r).0
step q closes = close q
step q drains = (drain q).0
step q waits_and_drains = (wait_and_drain q).0

-- The requests that an event puts in, and those that it takes out.
unfoldable pub accepted : GradeRequestQueue → Event → List GradeRequest
unfolding push
accepted q (pushes r) = if (push q r).1 then r ∷ [] else []
accepted q closes = []
accepted q drains = []
accepted q waits_and_drains = []

abbrev batch : Waited → List GradeRequest
batch waits = []
batch ended = []
batch (drained rs) = rs

unfoldable pub taken : GradeRequestQueue → Event → List GradeRequest
unfolding drain wait_and_drain
taken q (pushes r) = []
taken q closes = []
taken q drains = (drain q).1
taken q waits_and_drains = batch (wait_and_drain q).1

unfoldable pub run : GradeRequestQueue → List Event → GradeRequestQueue
run q [] = q
run q (e ∷ es) = run (step q e) es

unfoldable pub all_accepted : GradeRequestQueue → List Event → List GradeRequest
all_accepted q [] = []
all_accepted q (e ∷ es) = accepted q e ++ all_accepted (step q e) es

unfoldable pub all_taken : GradeRequestQueue → List Event → List GradeRequest
all_taken q [] = []
all_taken q (e ∷ es) = taken q e ++ all_taken (step q e) es

batch-waited : (b : Bool) (rs : List GradeRequest) → batch (waited b rs) ≡ rs
batch-waited true [] = refl
batch-waited false [] = refl
batch-waited b (r ∷ rs) = refl

step_lem :
    (q : GradeRequestQueue) (e : Event)
    → q.requests ++ accepted q e ≡ taken q e ++ (step q e).requests
unfolding step accepted taken
step_lem q (pushes r) = ground (arith, append-nil q.requests)
step_lem q closes = append-nil q.requests
step_lem q drains = refl
step_lem q waits_and_drains = ap (λ rs. rs ++ []) (sym (batch-waited q.closed q.requests))

-- What was in the outbox and what it accepted is what was taken out and what is still in it, in
-- the same order.
pub run_lem :
    (q : GradeRequestQueue) (es : List Event)
    → q.requests ++ all_accepted q es ≡ all_taken q es ++ (run q es).requests
unfolding run all_accepted all_taken
run_lem q [] = append-nil q.requests
run_lem q (e ∷ es) =
    sym (append_assoc q.requests (accepted q e) (all_accepted (step q e) es))
    ∙ ap (λ rs. rs ++ all_accepted (step q e) es) (step_lem q e)
    ∙ append_assoc (taken q e) (step q e).requests (all_accepted (step q e) es)
    ∙ ap (λ rs. taken q e ++ rs) (run_lem (step q e) es)
    ∙ sym (append_assoc (taken q e) (all_taken (step q e) es) (run (step q e) es).requests)

-- A closed outbox accepts nothing in any later history.
pub closed_accepts_nothing :
    (q : GradeRequestQueue) (es : List Event) → q.closed ≡ true → all_accepted q es ≡ []
unfolding all_accepted accepted step
closed_accepts_nothing q [] h = refl
closed_accepts_nothing q (pushes r ∷ es) h = ground (arith, closed_accepts_nothing q es)
closed_accepts_nothing q (closes ∷ es) h = closed_accepts_nothing _ es refl
closed_accepts_nothing q (drains ∷ es) h = closed_accepts_nothing _ es h
closed_accepts_nothing q (waits_and_drains ∷ es) h = closed_accepts_nothing _ es h
