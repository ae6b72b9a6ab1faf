-- ===== src/Hub/Monitor/Silence.antt =====
-- A grader that falls silent, in `graderMonitor` of pkg/grader/grpc/graderhub_service.go.
use autograder_server.Hub.Monitor.{
  grader_offline_grace_period, as_time, timer_fired, on_silence, with_grader, monitor_step,
}
use autograder_server.Hub.State.{hub_push_pending, Hub}
use autograder_server.Hub.Handlers.{
  requeue_one, is_submission_terminal, requeue_all, collected, on_submission_brief_report_update,
  on_grader_offline, queue_grade_request,
}
use autograder_server.Repository.Grader.{
  GraderStatus, unknown, online, offline, GraderStatusMetadata,
}
use autograder_server.Hub.Model.{GradeRequest, SubmissionBriefReport}
use autograder_server.Repository.Codec.{Codec}
use autograder_server.Repository.Pebble.{Pebble}
use autograder_server.Base.{
  ◌+◌, ltb, Option, some, Bool-cases, ap, ◌∙◌, lookup-delete_key, ==_iff, ◌≡◌, delete_key, lookup,
  ◌∷◌, [], inr, inl, none, refl, List, ℕ,
}

deleted : {A : Type 0} (g : ℕ) (m : List (ℕ × A)) → lookup g (delete_key g m) ≡ none
deleted g m = let here = (==_iff g g).1 refl in lookup-delete_key g g m ∙ rw here refl

module _ (p : Pebble) {R : Type 0} (briefs : Codec SubmissionBriefReport)
    (c : Codec GraderStatusMetadata) where
  SameGraders : Hub p.Db R → Hub p.Db R → Type 0
  SameGraders h' h =
      (h'.online_graders ≡ h.online_graders) × (h'.grade_request_queues ≡ h.grade_request_queues)

  requeue_one-SameGraders :
      (h : Hub p.Db R) (q : GradeRequest) → SameGraders (requeue_one p briefs h q) h
  unfolding SameGraders queue_grade_request on_submission_brief_report_update hub_push_pending
  requeue_one-SameGraders h q =
      elim (Bool-cases (is_submission_terminal p briefs h.db q.submission_id)) [
        | inl ended ↦ rw ended (refl, refl)
        | inr goes_on ↦ rw goes_on (refl, refl)
      ]

  requeue_all-SameGraders :
      (h : Hub p.Db R) (r : List GradeRequest) → SameGraders (requeue_all p briefs h r) h
  unfolding SameGraders
  requeue_all-SameGraders h [] = (refl, refl)
  requeue_all-SameGraders h (q ∷ r) =
      let (graders, queues) = requeue_all-SameGraders (requeue_one p briefs h q) r in
      let (graders', queues') = requeue_one-SameGraders h q in
      (graders ∙ graders', queues ∙ queues')

  offline-graders :
      (h : Hub p.Db R) (g : ℕ)
      → (lookup g (on_grader_offline p briefs h g).online_graders ≡ none)
        × (lookup g (on_grader_offline p briefs h g).grade_request_queues ≡ none)
  unfolding on_grader_offline SameGraders
  offline-graders h g =
      let (graders, queues) = requeue_all-SameGraders _ (collected p briefs h g).requeue in
      (
        ap (lookup g) graders ∙ deleted g h.online_graders,
        ap (lookup g) queues ∙ deleted g h.grade_request_queues,
      )

  -- A grader is not online.
  Gone : Hub p.Db R → ℕ → Type 0
  Gone h g = lookup g h.online_graders ≡ none

  silence-Gone :
      (h : Hub p.Db R) (g t : ℕ) (grader : GraderStatusMetadata) (s : GraderStatus)
      → Gone h g
      → Gone (on_silence p briefs c h g t grader s) g
  unfolding Gone
  silence-Gone h g t grader online e = (offline-graders _ g).0
  silence-Gone h g t grader offline e = e
  silence-Gone h g t grader unknown e =
      elim (Bool-cases (ltb (as_time grader.last_heartbeat + grader_offline_grace_period) t)) [
        | inl late ↦ rw late (offline-graders h g).0
        | inr early ↦ rw early e
      ]

  silent-Gone :
      (h : Hub p.Db R) (g t : ℕ) (o : Option GraderStatusMetadata)
      → Gone h g
      → Gone
          (with_grader p briefs c h o
            (λ grader. on_silence p briefs c h g t grader grader.status)).0
          g
  silent-Gone h g t none e = e
  silent-Gone h g t (some grader) e = silence-Gone h g t grader grader.status e

  -- When the timer of a grader's monitor fires, the grader is not online afterwards, whatever the
  -- store says of it and whether or not it can be read.
  pub lookup-monitor_step :
      (h : Hub p.Db R) (g t : ℕ)
      → lookup g (monitor_step p briefs c h g (timer_fired t)).0.online_graders ≡ none
  unfolding monitor_step Gone
  lookup-monitor_step h g t =
      silent-Gone (record h { online_graders = delete_key g h.online_graders }) g t _
        (deleted g h.online_graders)
