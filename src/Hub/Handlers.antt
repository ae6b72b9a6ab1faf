-- ===== src/Hub/Handlers.antt =====
-- The handlers of pkg/grader/grpc/graderhub_service.go that change a submission's state: queueing,
-- cancelling, the reports of a grader, the end of a submission, and the loss of a grader.
pub mod Cancelling
pub mod Requeue
pub mod Collecting
pub mod Ownership
use autograder_server.Hub.State.{hub_remove_pending, wake_scheduler, hub_push_pending, Hub}
use autograder_server.Hub.Subscribers.{
  close_all_submission_subscribers, send_grade_report, Subscribers,
}
use autograder_server.Repository.Grader.{
  get_grader_id_by_submission_id, get_submissions_by_grader, release_submission,
}
use autograder_server.Repository.Codec.{Codec}
use autograder_server.Hub.Outbox.{push, drain, GradeRequestQueue}
use autograder_server.Repository.Pebble.{Pebble}
use autograder_server.Hub.Model.{
  queued, queued, GradeReport, GradeRequest, SubmissionStatus, SubmissionBriefReport, failed,
  cancelling, running, cancelled, finished, aborted,
}
use autograder_server.Base.{
  insert, not, ◌==◌, contains, ◌++◌, ◌||◌, delete_key, codes, if◌then◌else◌, lookup, Bool, Option,
  List, ℕ, ◌∷◌, [], some, none, false, true,
}
use autograder_server.Repository.SubmissionReport

abbrev is_final : SubmissionStatus → Bool
is_final finished = true
is_final failed = true
is_final cancelled = true
is_final queued = false
is_final running = false
is_final aborted = false
is_final cancelling = false

abbrev status_report : {R : Type 0} → SubmissionBriefReport → GradeReport R
status_report brief = record {
  report = none;
  brief = some brief;
  docker_metadata = none;
  pending_rank = none;
}

-- A brief with a status and nothing else.
abbrev pub brief_of : SubmissionStatus → SubmissionBriefReport
brief_of s = record { score = 0; max_score = 0; exit_code = 0; internal_error = 0; status = s }

abbrev is_set {ℓ} : {A : Type ℓ} → Option A → Bool
is_set none = false
is_set (some a) = true

abbrev pub has_ended : Option SubmissionBriefReport → Bool
has_ended none = false
has_ended (some brief) = is_final brief.status

-- The ids in `seen`, the requests still in `running_list`, and those to queue again.
pub record Collected : Type 0 where
  pub seen : List ℕ
  pub running_list : List (ℕ × GradeRequest)
  pub requeue : List GradeRequest

abbrev collect : ℕ → GradeRequest → Collected → Collected
collect submission_id request c = record {
  seen = submission_id ∷ c.seen;
  running_list = delete_key submission_id c.running_list;
  requeue = c.requeue ++ request ∷ [];
}

abbrev collect_running_one : ℕ → Option GradeRequest → Collected → Collected
collect_running_one submission_id none c = c
collect_running_one submission_id (some request) c =
    if contains submission_id c.seen then c else collect submission_id request c

unfoldable pub collect_running : List ℕ → Collected → Collected
collect_running [] c = c
collect_running (s ∷ r) c = collect_running r (collect_running_one s (lookup s c.running_list) c)

-- Requests for logs and cancellations are dropped.
abbrev pub collect_outbox_one : GradeRequest → Collected → Collected
collect_outbox_one q c =
    if q.is_stream_log || q.is_cancel || contains q.submission_id c.seen
    then c
    else collect q.submission_id q c

unfoldable pub collect_outbox : List GradeRequest → Collected → Collected
collect_outbox [] c = c
collect_outbox (q ∷ r) c = collect_outbox r (collect_outbox_one q c)

abbrev pub requests_of : Option GradeRequestQueue → List GradeRequest
requests_of none = []
requests_of (some queue) = (drain queue).1

abbrev pub ids_of : Option (List ℕ) → List ℕ
ids_of none = []
ids_of (some ids) = ids

-- What a grader's callback stream ends with.
pub data CallbackResult : Type 0 where
  answered not_submission_owner : CallbackResult

abbrev pub cancel_request : ℕ → GradeRequest
cancel_request submission_id = record {
  submission_id = submission_id;
  tags = [];
  is_cancel = true;
  is_stream_log = false;
  request_id = [];
}

abbrev is_owner : Option ℕ → ℕ → Bool
is_owner none grader_id = false
is_owner (some owner) grader_id = owner == grader_id

module _ {R : Type 0} where
  abbrev sent_on : Subscribers R → ℕ → GradeReport R → Subscribers R
  sent_on s submission_id report =
      if is_set report.brief || is_set report.pending_rank || is_set report.report
      then send_grade_report s submission_id report
      else s

module _ (p : Pebble) where
  abbrev release_all : p.Db → List ℕ → p.Db
  release_all d [] = d
  release_all d (s ∷ r) = release_all (release_submission p d s).0 r

module _ (p : Pebble) (briefs : Codec SubmissionBriefReport) where
  unfoldable pub is_submission_terminal : p.Db → ℕ → Bool
  is_submission_terminal d submission_id =
      has_ended (SubmissionReport.get_submission_brief_report p briefs d submission_id)

  abbrev stored_brief : p.Db → ℕ → Option SubmissionBriefReport → p.Db
  stored_brief d submission_id none = d
  stored_brief d submission_id (some brief) =
      (SubmissionReport.update_submission_brief_report p briefs d submission_id brief).0

module _ (p : Pebble) {R : Type 0} (reports : Codec R) where
  abbrev stored_report : p.Db → ℕ → Option R → p.Db
  stored_report d submission_id none = d
  stored_report d submission_id (some report) =
      (SubmissionReport.update_submission_report p reports d submission_id report).0

module _ (p : Pebble) {R : Type 0} (briefs : Codec SubmissionBriefReport) where
  -- The stored brief may fail to be written; the report is sent in any case.
  unfoldable pub on_submission_brief_report_update :
      Hub p.Db R → ℕ → SubmissionBriefReport → Hub p.Db R
  on_submission_brief_report_update h submission_id brief = record h {
    db = (SubmissionReport.update_submission_brief_report p briefs h.db submission_id brief).0;
    subscribers = send_grade_report h.subscribers submission_id (status_report brief);
  }

  -- `EnqueueGrade`.
  unfoldable pub queue_grade_request : Hub p.Db R → GradeRequest → Hub p.Db R
  queue_grade_request h request =
      on_submission_brief_report_update (hub_push_pending h request) request.submission_id
        (brief_of queued)

  unfoldable pub on_submission_finished : Hub p.Db R → ℕ → Hub p.Db R
  on_submission_finished h submission_id =
      let d = (SubmissionReport.delete_unfinished_submission p h.db submission_id).0 in
      wake_scheduler (record h {
        db = (release_submission p d submission_id).0;
        subscribers = close_all_submission_subscribers h.subscribers submission_id;
        running_list = delete_key submission_id h.running_list;
      })

  unfoldable pub on_submission_cancelled : Hub p.Db R → ℕ → Hub p.Db R
  on_submission_cancelled h submission_id =
      on_submission_finished
        (on_submission_brief_report_update h submission_id (brief_of cancelled)) submission_id

  unfoldable pub on_submission_cancelling : Hub p.Db R → ℕ → Hub p.Db R
  on_submission_cancelling h submission_id =
      on_submission_brief_report_update h submission_id (brief_of cancelling)

  abbrev pushed_to : Hub p.Db R → ℕ → Option GradeRequestQueue → GradeRequest → Hub p.Db R × Bool
  pushed_to h grader_id none request = (h, false)
  pushed_to h grader_id (some queue) request =
      let (queue', accepted) = push queue request in
      (record h { grade_request_queues = insert grader_id queue' h.grade_request_queues }, accepted)

  unfoldable pub send_grader_grade_request : Hub p.Db R → ℕ → GradeRequest → Hub p.Db R × Bool
  send_grader_grade_request h grader_id request =
      pushed_to h grader_id (lookup grader_id h.grade_request_queues) request

  -- The owner is asked to stop; without one that can be reached, the submission ends at once.
  abbrev pub cancel_running : Hub p.Db R → ℕ → Option ℕ → Hub p.Db R
  cancel_running h submission_id none = on_submission_cancelled h submission_id
  cancel_running h submission_id (some grader_id) =
      let (h', accepted) = send_grader_grade_request h grader_id (cancel_request submission_id) in
      if accepted
      then on_submission_cancelling h' submission_id
      else on_submission_cancelled h' submission_id

  abbrev pub cancel_indexed : Hub p.Db R → ℕ → Option ℕ → Hub p.Db R
  cancel_indexed h submission_id (some a) =
      on_submission_cancelled (hub_remove_pending h submission_id) submission_id
  cancel_indexed h submission_id none =
      cancel_running h submission_id (get_grader_id_by_submission_id p h.db submission_id)

  unfoldable pub cancel_grade : Hub p.Db R → ℕ → Hub p.Db R
  cancel_grade h submission_id =
      cancel_indexed h submission_id (lookup submission_id h.pending.queued_list_index)

  abbrev pub requeue_one : Hub p.Db R → GradeRequest → Hub p.Db R
  requeue_one h q =
      if is_submission_terminal p briefs h.db q.submission_id then h else queue_grade_request h q

  abbrev pub requeue_all : Hub p.Db R → List GradeRequest → Hub p.Db R
  requeue_all h [] = h
  requeue_all h (q ∷ r) = requeue_all (requeue_one h q) r

  -- The requests in flight on the grader.
  unfoldable pub collected : Hub p.Db R → ℕ → Collected
  collected h grader_id = collect_outbox (requests_of (lookup grader_id h.grade_request_queues)) (
      collect_running (ids_of (get_submissions_by_grader p h.db grader_id))
        (record { seen = []; running_list = h.running_list; requeue = [] }))

  -- The outbox leaves the map closed and drained; whoever holds it can push no more.
  unfoldable pub on_grader_offline : Hub p.Db R → ℕ → Hub p.Db R
  on_grader_offline h grader_id =
      let c = collected h grader_id in
      requeue_all
        (record h {
          online_graders = delete_key grader_id h.online_graders;
          grade_request_queues = delete_key grader_id h.grade_request_queues;
          running_list = c.running_list;
          db = release_all p h.db (ids_of (get_submissions_by_grader p h.db grader_id));
        })
        c.requeue

module _ (p : Pebble) {R : Type 0} (briefs : Codec SubmissionBriefReport) (reports : Codec R) where
  -- One message of an owner.
  unfoldable pub take_report : Hub p.Db R → ℕ → GradeReport R → Hub p.Db R
  take_report h submission_id report = record h {
    db =
        stored_report p reports (stored_brief p briefs h.db submission_id report.brief)
          submission_id report.report;
    subscribers = sent_on h.subscribers submission_id report;
  }

  -- The messages of the stream up to its end; the answer is sent in the end.
  unfoldable pub grade_callback :
      Hub p.Db R → ℕ → List (ℕ × GradeReport R) → Hub p.Db R × CallbackResult
  grade_callback h grader_id [] = (h, answered)
  grade_callback h grader_id ((submission_id, report) ∷ r) =
      let h' = take_report h submission_id report in
      let rest = grade_callback h' grader_id r in
      if not (is_owner (get_grader_id_by_submission_id p h.db submission_id) grader_id)
      then (h, not_submission_owner)
      else if has_ended report.brief
      then (on_submission_finished p briefs h' submission_id, answered)
      else rest
