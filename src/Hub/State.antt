-- ===== src/Hub/State.antt =====
-- GraderHubService of pkg/grader/grpc/graderhub_service.go: the state of the hub, and the
-- operations on the pending list with the reports that they send.
use autograder_server.Base.{true, Bool, List, ℕ, ◌∷◌, [], some, none}
use autograder_server.Hub.Model.{GradeRequest, GradeReport}
use autograder_server.Hub.Outbox.{GradeRequestQueue}
use autograder_server.Hub.Pending.{
  PendingList, RankChange, remove_pending_grade_request, push_pending_grade_queue,
}
use autograder_server.Hub.Subscribers.{Subscribers, send_grade_report}
use autograder_server.Repository.Grader.{GraderStatusMetadata}

-- An outbox that is still in the map and closed stands for a grader that goes away between the
-- look-up of its outbox and the push.
pub record Hub (Db R : Type 0) : Type 0 where
  pub db : Db
  pub grade_request_queues : List (ℕ × GradeRequestQueue)
  pub online_graders : List (ℕ × GraderStatusMetadata)
  pub sessions : List (ℕ × List ℕ)
  pub subscribers : Subscribers R
  pub pending : PendingList
  pub running_list : List (ℕ × GradeRequest)
  pub scheduler_wake : Bool

module _ {R : Type 0} where
  abbrev rank_report : RankChange → GradeReport R
  rank_report c = record {
    report = none;
    brief = none;
    docker_metadata = none;
    pending_rank = some (record { rank = c.new_rank; total = c.total });
  }

  -- `onPendingRankChanged` for each change.
  abbrev pub send_changes : List RankChange → Subscribers R → Subscribers R
  send_changes [] s = s
  send_changes (c ∷ r) s = send_changes r (send_grade_report s c.submission_id (rank_report c))

module _ {Db R : Type 0} where
  -- A wake-up that is pending already is enough.
  unfoldable pub wake_scheduler : Hub Db R → Hub Db R
  wake_scheduler h = record h { scheduler_wake = true }

  unfoldable pub hub_remove_pending : Hub Db R → ℕ → Hub Db R
  hub_remove_pending h submission_id =
      let (l, changes) = remove_pending_grade_request h.pending submission_id in
      record h { pending = l; subscribers = send_changes changes h.subscribers }

  unfoldable pub hub_push_pending : Hub Db R → GradeRequest → Hub Db R
  hub_push_pending h request =
      let (l, changes) = push_pending_grade_queue h.pending request in
      record h {
        pending = l;
        subscribers = send_changes changes h.subscribers;
        scheduler_wake = true;
      }
