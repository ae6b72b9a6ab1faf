-- ===== src/Hub/Handlers/Requeue.antt =====
-- `onGraderOffline` of pkg/grader/grpc/graderhub_service.go: which requests are to be queued
-- again.
use autograder_server.Hub.Handlers.Collecting.{ids_in}
use autograder_server.Hub.Subscribers.Delivery.{Distinct}
use autograder_server.Hub.Model.{GradeRequest}
use autograder_server.Hub.Handlers.{Hub, Collected}
use autograder_server.Base.{All, ◌||◌, ◌⊎◌, contains, ◌≡◌, lookup, some, none, true, List, ℕ}

-- A request for a log or a cancellation, or one whose submission is among the ids.
abbrev pub Back : List ℕ → GradeRequest → Type 0
Back ids q = ((q.is_stream_log || q.is_cancel) ≡ true) ⊎ (contains q.submission_id ids ≡ true)

-- What a grader that is lost gives back, of its listed submissions and of its outbox.
pub record Recovered (listed : List ℕ) (running : List (ℕ × GradeRequest))
    (outbox : List GradeRequest) (c : Collected) : Type 0 where
  pub once : Distinct (ids_in c.requeue)
  pub stopped : (s : ℕ) → contains s (ids_in c.requeue) ≡ true → lookup s c.running_list ≡ none
  pub running_back :
      (s : ℕ) (q : GradeRequest)
      → contains s listed ≡ true
      → lookup s running ≡ some q
      → contains s (ids_in c.requeue) ≡ true
  pub outbox_back : All (Back (ids_in c.requeue)) outbox
