-- ===== src/Hub/Outbox.antt =====
-- GradeRequestQueue of pkg/grader/grpc/graderhub_service.go: the outbox of one grader. The mutex
-- makes each method one step.
pub mod Delivery
use autograder_server.Base.{◌++◌, if◌then◌else◌, Bool, List, ◌∷◌, [], false, true}
use autograder_server.Hub.Model.{GradeRequest}

pub record GradeRequestQueue : Type 0 where
  pub requests : List GradeRequest
  pub closed : Bool

unfoldable pub new_grade_request_queue : GradeRequestQueue
new_grade_request_queue = record { requests = []; closed = false }

unfoldable pub close : GradeRequestQueue → GradeRequestQueue
close q = record q { closed = true }

unfoldable pub push : GradeRequestQueue → GradeRequest → GradeRequestQueue × Bool
push q req = if q.closed then (q, false) else (record q { requests = q.requests ++ req ∷ [] }, true)

unfoldable pub drain : GradeRequestQueue → GradeRequestQueue × List GradeRequest
drain q = (record q { requests = [] }, q.requests)

-- What `WaitAndDrain` does when it holds the lock: it waits on, reports the end, or drains.
pub data Waited : Type 0 where
  waits : Waited
  ended : Waited
  drained : List GradeRequest → Waited

abbrev waited : Bool → List GradeRequest → Waited
waited true [] = ended
waited false [] = waits
waited closed (r ∷ rs) = drained (r ∷ rs)

unfoldable pub wait_and_drain : GradeRequestQueue → GradeRequestQueue × Waited
wait_and_drain q = (record q { requests = [] }, waited q.closed q.requests)
