-- ===== src/Tests/Subscribers.antt =====
-- Runs of the subscribers of pkg/grader/grpc/graderhub_service.go.
use autograder_server.Tests.Data.{brief_report}
use autograder_server.Hub.Subscribers.{
  subs_of, send_grade_report, Subscribers, no_subscribers, subscribe,
}
use autograder_server.Hub.Subscribers.Delivery
use autograder_server.Base.{contains, if◌then◌else◌, ◌≡◌, lookup, List, ℕ}

-- Nobody, and then one subscriber of submission 7.
abbrev nobody_yet : Subscribers (List ℕ)
nobody_yet = no_subscribers

abbrev one_subscriber : Subscribers (List ℕ)
one_subscriber = (subscribe nobody_yet 7).0

nobody-IsValid : Delivery.IsValid nobody_yet
unfolding no_subscribers
nobody-IsValid = record { distinct = λ t. tt; fresh = λ t a e. cc; one_owner = λ t u a e h. cc }

one_subscriber-IsValid : Delivery.IsValid one_subscriber
one_subscriber-IsValid = Delivery.subscribe-IsValid nobody_yet 7 nobody-IsValid

lookup-send_grade_report_example :
    lookup 0 (send_grade_report one_subscriber 7 brief_report).mailboxes ≡ (
      if contains 0 (subs_of (lookup 7 one_subscriber.submission_subs))
      then Delivery.map_option (Delivery.delivered brief_report) (lookup 0 one_subscriber.mailboxes)
      else lookup 0 one_subscriber.mailboxes)
lookup-send_grade_report_example =
    Delivery.lookup-send_grade_report one_subscriber 7 0 brief_report one_subscriber-IsValid
