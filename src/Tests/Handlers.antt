-- ===== src/Tests/Handlers.antt =====
-- Runs of `GradeCallback` and `onGraderOffline` of pkg/grader/grpc/graderhub_service.go.
use autograder_server.Hub.Monitor.Silence.{lookup-monitor_step}
use autograder_server.Hub.Monitor.{timer_fired, monitor_step}
use autograder_server.Hub.Handlers.Ownership.{grade_callback-foreign}
use autograder_server.Repository.Pebble.{Entries}
use autograder_server.Tests.Data.{brief_report}
use autograder_server.Tests.Hub.{busy_hub}
use autograder_server.Repository.Grader.{get_grader_id_by_submission_id}
use autograder_server.Hub.State.{Hub}
use autograder_server.Hub.Model.{GradeRequest, GradeReport}
use autograder_server.Hub.Handlers.{grade_callback}
use autograder_server.Base.{lookup, ◌≡◌, ◌≢◌, arith, ◌∷◌, [], some, none, false, List, ℕ}
use autograder_server.Repository.SubmissionReport
use autograder_server.Tests.Store.{grader_codec, in_memory, brief_codec, report_codec}

nobody_owns : get_grader_id_by_submission_id in_memory busy_hub.db 7 ≢ some 2
unfolding get_grader_id_by_submission_id
nobody_owns e = cc

abbrev streamed : List (ℕ × GradeReport (List ℕ))
streamed = (8, brief_report) ∷ (7, brief_report) ∷ []

grade_callback-foreign_example :
    let d' = (grade_callback in_memory brief_codec report_codec busy_hub 2 streamed).0.db in
    (get_grader_id_by_submission_id in_memory d' 7
      ≡ get_grader_id_by_submission_id in_memory busy_hub.db 7)
    × (SubmissionReport.get_submission_brief_report in_memory brief_codec d' 7
        ≡ SubmissionReport.get_submission_brief_report in_memory brief_codec busy_hub.db 7)
    × (SubmissionReport.get_submission_report in_memory report_codec d' 7
        ≡ SubmissionReport.get_submission_report in_memory report_codec busy_hub.db 7)
grade_callback-foreign_example =
    grade_callback-foreign in_memory brief_codec report_codec busy_hub 2 7 streamed (omega arith)
      (omega arith) nobody_owns

-- Submission 9 runs, and 7 is in the outbox of grader 1.
abbrev request_9 : GradeRequest
request_9 = record {
  submission_id = 9;
  tags = [];
  is_cancel = false;
  is_stream_log = false;
  request_id = [];
}

abbrev running_hub : Hub Entries (List ℕ)
running_hub = record busy_hub { running_list = (9, request_9) ∷ [] }

lookup-monitor_step_example :
    lookup 1
      (monitor_step in_memory brief_codec grader_codec busy_hub 1 (timer_fired 5)).0.online_graders
    ≡ none
lookup-monitor_step_example = lookup-monitor_step in_memory brief_codec grader_codec busy_hub 1 5
