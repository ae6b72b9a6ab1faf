-- ===== src/Hub/Schedule.antt =====
-- `snapshotGraderLoads` and `schedulePass` of pkg/grader/grpc/graderhub_service.go.
pub mod Placement
pub mod Remaining
pub mod Cursor
pub mod Walk
pub mod Walked
pub mod Pass
use autograder_server.Repository.Pebble.{Pebble}
use autograder_server.Base.{
  zero, lookup, ◌==◌, if◌then◌else◌, delete_key, insert, ◌||◌, length, Bool, Option, List, ℕ, ◌∷◌,
  [], some, none, false, true, suc,
}
use autograder_server.Hub.Model.{GradeRequest}
use autograder_server.Hub.Outbox
use autograder_server.Hub.Outbox.{GradeRequestQueue}
use autograder_server.Hub.Pending.{Element, behind}
use autograder_server.Hub.Pick.{Loads, pick_grader}
use autograder_server.Hub.State.{Hub, hub_remove_pending}
use autograder_server.Repository.Grader.{
  GraderStatusMetadata, get_submissions_by_grader, claim_submission, release_submission,
}

abbrev pub head_of : List Element → Option Element
head_of [] = none
head_of (e ∷ r) = some e

abbrev count_of : Option (List ℕ) → ℕ
count_of none = 0
count_of (some ids) = length ids

abbrev pub Placed : Type 0 → Type 0 → Type 0
Placed Db R = Hub Db R × Loads × Bool

module _ (p : Pebble) where
  abbrev pub snapshot_grader_loads : p.Db → List (ℕ × GraderStatusMetadata) → Loads
  snapshot_grader_loads d [] = []
  snapshot_grader_loads d ((id, grader) ∷ r) =
      (
        id,
        record {
          concurrency = grader.info.concurrency;
          tags = grader.info.tags;
          running = count_of (get_submissions_by_grader p d id);
        },
      )
      ∷ snapshot_grader_loads d r

module _ (p : Pebble) {R : Type 0} where
  -- Claimed before the push.
  abbrev pub claimed : Hub p.Db R → ℕ → GradeRequest → Hub p.Db R
  claimed h grader_id request = record h {
    running_list = insert request.submission_id request h.running_list;
    db = (claim_submission p h.db grader_id request.submission_id).0;
  }

  -- The claim undone when the outbox is closed.
  abbrev pub unclaimed : Hub p.Db R → GradeRequest → Hub p.Db R
  unclaimed h request = record h {
    running_list = delete_key request.submission_id h.running_list;
    db = (release_submission p h.db request.submission_id).0;
  }

  abbrev pub delivered : Hub p.Db R → ℕ → GradeRequestQueue → GradeRequest → Hub p.Db R
  delivered h grader_id queue request =
      hub_remove_pending
        (record h { grade_request_queues = insert grader_id queue h.grade_request_queues })
        request.submission_id

  -- What follows the choice of a grader; `next_candidate` goes on without it.
  abbrev pub try_push :
      Hub p.Db R
      → ℕ
      → Loads
      → GradeRequest
      → GradeRequestQueue × Bool
      → (Hub p.Db R → Option (Placed p.Db R))
      → Option (Placed p.Db R)
  try_push h grader_id loads request (queue, true) next_candidate =
      some (delivered (claimed h grader_id request) grader_id queue request, loads, true)
  try_push h grader_id loads request (queue, false) next_candidate =
      next_candidate (unclaimed (claimed h grader_id request) request)

  abbrev pub try_grader :
      Hub p.Db R
      → ℕ
      → Loads
      → GradeRequest
      → Option GradeRequestQueue
      → (Hub p.Db R → Option (Placed p.Db R))
      → Option (Placed p.Db R)
  try_grader h grader_id loads request none next_candidate = next_candidate h
  try_grader h grader_id loads request (some queue) next_candidate =
      try_push h grader_id loads request (Outbox.push queue request) next_candidate

  abbrev pub after_pick :
      Hub p.Db R
      → GradeRequest
      → ℕ × Loads
      → (Hub p.Db R → Loads → Option (Placed p.Db R))
      → Option (Placed p.Db R)
  after_pick h request (grader_id, loads) go =
      if grader_id == 0
      then some (h, loads, false)
      else try_grader h grader_id loads request (lookup grader_id h.grade_request_queues)
          (λ h'. go h' (delete_key grader_id loads))

  -- The inner loop, on fuel: a grader for one request. The Boolean says whether it found one.
  unfoldable pub place_request : ℕ → Hub p.Db R → Loads → GradeRequest → Option (Placed p.Db R)
  place_request zero h loads request = none
  place_request (suc fuel) h loads request =
      after_pick h request (pick_grader request loads)
        (λ h' loads'. place_request fuel h' loads' request)

  abbrev pub go_on :
      Bool
      → Option (Placed p.Db R)
      → (Hub p.Db R → Loads → Bool → Option (Hub p.Db R × Bool))
      → Option (Hub p.Db R × Bool)
  go_on progressed none continue_with = none
  go_on progressed (some (h, loads, placed)) continue_with =
      continue_with h loads (progressed || placed)

  -- The outer loop, on fuel: `cur` walks along the list, and is moved on before its request leaves.
  unfoldable pub pass_loop :
      ℕ → Hub p.Db R → Loads → Option Element → Bool → Option (Hub p.Db R × Bool)
  pass_loop fuel h loads none progressed = some (h, progressed)
  pass_loop zero h loads (some cur) progressed = none
  pass_loop (suc fuel) h loads (some cur) progressed =
      go_on progressed (place_request (suc (length loads)) h loads cur.request)
        (λ h' loads' progressed'.
          pass_loop fuel h' loads' (head_of (behind cur.address h.pending.queued_list)) progressed')

  -- The result says whether anything was scheduled.
  unfoldable pub schedule_pass : Hub p.Db R → Option (Hub p.Db R × Bool)
  unfolding pass_loop
  schedule_pass h =
      let loads = snapshot_grader_loads p h.db h.online_graders in
      if length loads == 0
      then some (h, false)
      else pass_loop (length h.pending.queued_list) h loads (head_of h.pending.queued_list) false
