-- ===== src/Tests/Data.antt =====
-- Requests, reports and loads for the runs of the models of pkg/grader/grpc. A full report is its
-- bytes.
use autograder_server.Hub.Handlers.{brief_of}
use autograder_server.Hub.Model.{running, GradeReport, GradeRequest}
use autograder_server.Hub.Outbox.{GradeRequestQueue}
use autograder_server.Hub.Pick.{Loads}
use autograder_server.Base.{◌∷◌, [], some, none, false, List, ℕ}

abbrev pub request_7 : GradeRequest
request_7 = record {
  submission_id = 7;
  tags = [];
  is_cancel = false;
  is_stream_log = false;
  request_id = [];
}

abbrev pub request_8 : GradeRequest
request_8 = record {
  submission_id = 8;
  tags = [];
  is_cancel = false;
  is_stream_log = false;
  request_id = [];
}

abbrev pub outbox : GradeRequestQueue
outbox = record { requests = request_7 ∷ []; closed = false }

abbrev pub two_loads : Loads
two_loads =
    (1, record { concurrency = 2; tags = []; running = 1 })
    ∷ (2, record { concurrency = 2; tags = []; running = 0 })
    ∷ []

-- Reports with a brief, and with a rank.
abbrev pub brief_report : GradeReport (List ℕ)
brief_report = record {
  report = none;
  brief = some (brief_of running);
  docker_metadata = none;
  pending_rank = none;
}

abbrev pub ranked_report : GradeReport (List ℕ)
ranked_report = record {
  report = none;
  brief = none;
  docker_metadata = none;
  pending_rank = some (record { rank = 1; total = 1 });
}
