-- ===== src/Tests/Hub.antt =====
-- Runs of the scheduler and of the handlers of pkg/grader/grpc/graderhub_service.go, and of the
-- choice of a grader.
use autograder_server.Hub.Handlers.Cancelling.{requests-cancel_grade}
use autograder_server.Tests.Pending.{two-IsValid, two_pending}
use autograder_server.Hub.Schedule.Pass.{schedule_pass-Passed, Passed}
use autograder_server.Hub.Subscribers.{no_subscribers}
use autograder_server.Repository.Grader.{online}
use autograder_server.Hub.Pick.{pick_grader}
use autograder_server.Hub.Schedule.{place_request, schedule_pass}
use autograder_server.Tests.Data.{two_loads, outbox, request_7}
use autograder_server.Repository.Pebble.{Entries}
use autograder_server.Tests.Store.{brief_codec, in_memory}
use autograder_server.Hub.Schedule.Placement.{place_request-Outcome, Ends}
use autograder_server.Hub.Handlers.{cancel_grade}
use autograder_server.Hub.State.{Hub}
use autograder_server.Hub.Pick.Best.{pick_grader-Picked, Picked}
use autograder_server.Hub.Pending.Ranks
use autograder_server.Hub.Pending.Queue.{without, requests}
use autograder_server.Base.{◌≡◌, Bool, List, ◌∷◌, [], some, none, false, refl, ℕ, arith}

pick_grader-Picked_example : Picked request_7 two_loads (pick_grader request_7 two_loads)
pick_grader-Picked_example = pick_grader-Picked request_7 two_loads

-- A hub with two requests waiting and two graders, of which the first has an open outbox.
abbrev pub busy_hub : Hub Entries (List ℕ)
busy_hub = record {
  db = [];
  grade_request_queues = (1, outbox) ∷ [];
  online_graders =
      (
        1,
        record {
          info = record { hostname = []; tags = []; concurrency = 2 };
          ip = [];
          status = online;
          last_heartbeat = none;
        },
      )
      ∷ [];
  sessions = [];
  subscribers = no_subscribers;
  pending = two_pending;
  running_list = [];
  scheduler_wake = false;
}

place_request-Outcome_example :
    Ends in_memory busy_hub two_loads request_7
      (place_request in_memory 3 busy_hub two_loads request_7)
place_request-Outcome_example =
    place_request-Outcome in_memory 3 busy_hub two_loads request_7 (omega arith) refl

schedule_pass-Passed_example :
    (r : Hub Entries (List ℕ) × Bool) × (schedule_pass in_memory busy_hub ≡ some r)
    × Passed in_memory busy_hub r
schedule_pass-Passed_example = schedule_pass-Passed in_memory busy_hub two-IsValid refl

requests-cancel_grade_example :
    (requests (cancel_grade in_memory brief_codec busy_hub 8).pending.queued_list
      ≡ without 8 (requests two_pending.queued_list))
    × Ranks.IsValid (cancel_grade in_memory brief_codec busy_hub 8).pending
requests-cancel_grade_example = requests-cancel_grade in_memory brief_codec busy_hub 8 two-IsValid
