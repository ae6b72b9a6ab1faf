-- ===== src/Tests/Outbox.antt =====
-- Runs of the outbox of pkg/grader/grpc/graderhub_service.go and of the mailbox of subscription.go.
use autograder_server.Hub.Mailbox.{ReportMailbox}
use autograder_server.Tests.Data.{request_7, brief_report, request_8, outbox, ranked_report}
use autograder_server.Hub.Mailbox.State.{receives, receives, publishes, publishes, receives}
use autograder_server.Hub.Outbox.Delivery.{
  waits_and_drains, closes, waits_and_drains, pushes, closes,
}
use autograder_server.Hub.Outbox.Delivery
use autograder_server.Hub.Mailbox.State
use autograder_server.Base.{◌≡◌, ◌++◌, List, ◌∷◌, [], some, false, true, ℕ}

abbrev history : List Delivery.Event
history =
    Delivery.pushes request_8
    ∷ Delivery.waits_and_drains
    ∷ Delivery.closes
    ∷ Delivery.pushes request_7
    ∷ []

run_lem_example :
    outbox.requests ++ Delivery.all_accepted outbox history
    ≡ Delivery.all_taken outbox history ++ (Delivery.run outbox history).requests
run_lem_example = Delivery.run_lem outbox history

abbrev full_mailbox : ReportMailbox (List ℕ)
full_mailbox = record { ch = some ranked_report; closed = false }

abbrev mailbox_history : List (State.Event (List ℕ))
mailbox_history =
    State.publishes (true ∷ []) brief_report
    ∷ State.receives
    ∷ State.closes
    ∷ State.publishes [] brief_report
    ∷ []

run-known_example :
    State.known ranked_report (
      State.all_received full_mailbox mailbox_history
      ++ State.slot (State.run full_mailbox mailbox_history).ch)
    ≡ State.known ranked_report
        (State.slot full_mailbox.ch ++ State.all_accepted false mailbox_history)
run-known_example = State.run-known full_mailbox mailbox_history ranked_report
