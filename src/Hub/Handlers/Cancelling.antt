-- ===== src/Hub/Handlers/Cancelling.antt =====
-- `CancelGrade` of pkg/grader/grpc/graderhub_service.go and the pending list.
use autograder_server.Hub.Pending.Ranks.{IsValid, remove_pending_grade_request-IsValid}
use autograder_server.Hub.Pending.Queue.{
  requests, without, requests-remove_pending_grade_request, Absent-without, Indexed-Absent,
}
use autograder_server.Hub.Pending.Ranks.{remove_pending_grade_request-IsValid}
use autograder_server.Hub.Pending.{PendingList}
use autograder_server.Hub.Pending.Queue.{
  requests-remove_pending_grade_request, Indexed-Absent, Absent-without, without,
}
use autograder_server.Hub.Outbox.{GradeRequestQueue, push}
use autograder_server.Hub.State.{wake_scheduler, hub_remove_pending}
use autograder_server.Hub.Handlers.{
  get_grader_id_by_submission_id, push, cancel_request, pushed_to, GradeRequestQueue,
  hub_remove_pending, wake_scheduler, send_grader_grade_request, on_submission_finished,
  on_submission_brief_report_update, on_submission_cancelling, on_submission_cancelled,
  cancel_grade, cancel_running,
}
use autograder_server.Hub.State.{Hub}
use autograder_server.Hub.Model.{SubmissionBriefReport}
use autograder_server.Repository.Codec.{Codec}
use autograder_server.Repository.Pebble.{Pebble}
use autograder_server.Base.{
  subst, sym, ◌∙◌, ap, Bool-cases, lookup, Option-cases, if◌then◌else◌, inr, inl, some, none, refl,
  ◌≡◌, Option, ℕ,
}

module _ (p : Pebble) {R : Type 0} (briefs : Codec SubmissionBriefReport) where
  pending-cancel_running :
      (h : Hub p.Db R) (s : ℕ) (o : Option ℕ) → (cancel_running p briefs h s o).pending ≡ h.pending
  unfolding on_submission_cancelled on_submission_cancelling on_submission_brief_report_update
      on_submission_finished send_grader_grade_request wake_scheduler
  pending-cancel_running h s none = refl
  pending-cancel_running h s (some g) = ends (lookup g h.grade_request_queues)
    where
      ends :
          (o : Option GradeRequestQueue)
          → (if (pushed_to p briefs h g o (cancel_request s)).1
              then on_submission_cancelling p briefs
                  (pushed_to p briefs h g o (cancel_request s)).0
                  s
              else on_submission_cancelled p briefs
                  (pushed_to p briefs h g o (cancel_request s)).0
                  s).pending
            ≡ h.pending
      ends none = refl
      ends (some queue) = elim (Bool-cases (push queue (cancel_request s)).1) [
        | inl took ↦ rw took refl
        | inr shut ↦ rw shut refl
      ]

  -- On a valid pending list a cancellation, on every branch, takes exactly the requests of the
  -- submission out of the list, keeps the order of the others, and leaves the list valid.
  pub requests-cancel_grade :
      (h : Hub p.Db R) (s : ℕ)
      → IsValid h.pending
      → (requests (cancel_grade p briefs h s).pending.queued_list
          ≡ without s (requests h.pending.queued_list))
        × IsValid (cancel_grade p briefs h s).pending
  unfolding cancel_grade on_submission_cancelled on_submission_brief_report_update
      on_submission_finished wake_scheduler hub_remove_pending
  requests-cancel_grade h s v = elim (Option-cases (lookup s h.pending.queued_list_index)) [
    | inl e ↦ rw e (
        let same = pending-cancel_running h s (get_grader_id_by_submission_id p h.db s) in
        (
          ap (λ (l : PendingList). requests l.queued_list) same
              ∙ sym (Absent-without s _ (Indexed-Absent s _ _ e v.indexed)),
          subst IsValid (sym same) v,
        ))
    | inr (a, e) ↦ rw e (
      requests-remove_pending_grade_request h.pending s v,
      remove_pending_grade_request-IsValid h.pending s v,
    )
  ]
