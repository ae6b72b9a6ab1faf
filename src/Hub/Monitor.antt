-- ===== src/Hub/Monitor.antt =====
-- `graderMonitor` of pkg/grader/grpc/graderhub_service.go, one round of its select at a time. A
-- time is in nanoseconds.
pub mod Silence
use autograder_server.Hub.Handlers.{on_grader_offline}
use autograder_server.Hub.State.{Hub}
use autograder_server.Hub.Model.{SubmissionBriefReport}
use autograder_server.Repository.Codec.{Codec}
use autograder_server.Repository.Pebble.{Pebble}
use autograder_server.Repository.Grader.{
  GraderStatus, update_grader, get_grader_by_id, GraderStatusMetadata, unknown, online, offline,
}
use autograder_server.Base.{
  ◌+◌, delete_key, insert, if◌then◌else◌, codes, ◌^◌, ltb, ◌*◌, Bool, Option, some, none, false,
  true, List, ℕ,
}

pub data MonitorEvent : Type 0 where
  heartbeat : ℕ → MonitorEvent
  stream_ended : MonitorEvent
  timer_fired : ℕ → MonitorEvent

abbrev grader_offline_grace_period : ℕ
grader_offline_grace_period = 30 * 10 ^ 9

-- `AsTime` of a nil timestamp is the epoch.
abbrev as_time : Option ℕ → ℕ
as_time none = 0
as_time (some t) = t

-- A heartbeat older than the last one, if there is a last one.
abbrev is_expired : ℕ → Option ℕ → Bool
is_expired t none = false
is_expired t (some last) = ltb t last

module _ (p : Pebble) {R : Type 0} (briefs : Codec SubmissionBriefReport)
    (c : Codec GraderStatusMetadata) where
  abbrev stored : Hub p.Db R → ℕ → GraderStatusMetadata → Hub p.Db R
  stored h grader_id grader = record h { db = (update_grader p c h.db grader_id grader).0 }

  abbrev on_heartbeat : Hub p.Db R → ℕ → ℕ → GraderStatusMetadata → Hub p.Db R
  on_heartbeat h grader_id t grader =
      let alive = record grader { status = online; last_heartbeat = some t } in
      if is_expired t grader.last_heartbeat
      then h
      else stored (record h { online_graders = insert grader_id alive h.online_graders }) grader_id
          alive

  abbrev on_silence : Hub p.Db R → ℕ → ℕ → GraderStatusMetadata → GraderStatus → Hub p.Db R
  on_silence h grader_id t grader online =
      on_grader_offline p briefs (stored h grader_id (record grader { status = unknown })) grader_id
  on_silence h grader_id t grader unknown =
      if ltb (as_time grader.last_heartbeat + grader_offline_grace_period) t
      then stored (on_grader_offline p briefs h grader_id) grader_id
          (record grader { status = offline })
      else stored h grader_id grader
  on_silence h grader_id t grader offline = h

  -- The Boolean says whether the monitor goes on; it ends when the grader cannot be read.
  abbrev with_grader :
      Hub p.Db R
      → Option GraderStatusMetadata
      → (GraderStatusMetadata → Hub p.Db R)
      → Hub p.Db R × Bool
  with_grader h none go = (h, false)
  with_grader h (some grader) go = (go grader, true)

  unfoldable pub monitor_step : Hub p.Db R → ℕ → MonitorEvent → Hub p.Db R × Bool
  monitor_step h grader_id (heartbeat t) =
      with_grader h (get_grader_by_id p c h.db grader_id) (on_heartbeat h grader_id t)
  monitor_step h grader_id stream_ended =
      with_grader h (get_grader_by_id p c h.db grader_id) (λ grader.
        stored (on_grader_offline p briefs h grader_id) grader_id
          (record grader { status = offline }))
  monitor_step h grader_id (timer_fired t) =
      let h' = record h { online_graders = delete_key grader_id h.online_graders } in
      with_grader h' (get_grader_by_id p c h'.db grader_id)
        (λ grader. on_silence h' grader_id t grader grader.status)
