-- ===== src/Lib.antt =====
-- A model of the server's grading hub, of the repositories under it, and of the access rules and
-- handlers of its service, with its properties.
--
-- A call of the service (pkg/grpc) passes the guards of its method and then reads and changes users,
-- courses, uploads and submissions. A submission goes to the hub (pkg/grader/grpc), which queues it,
-- hands it to a grader, and passes the grader's reports on to subscribers. Both keep what they know
-- in a key-value store (pkg/repository over pebble).
--
-- Repository: pkg/repository.
--   Prefix: prefix.go, the bounds of prefix scans and big-endian ids. Decimal: ids in keys as
--   `fmt` writes and `strconv` reads them. Pebble: the store itself is not in the repository, so
--   it is a record of operations and documented laws, which every definition that uses it takes
--   as a parameter. Codec: the same for protobuf messages. Sequencer: sequencer.go. Grader:
--   grader.go, its keys in Grader/Keys. Merger: merger.go. SubmissionReport: submission_report.go.
--   Messages: the messages of proto/model.proto that are stored. Keys: lemmas on keys that end in
--   ids. Stored: how a message is written and read. Batch: pebble's batches and the merge operator
--   they go through, a record of laws like Pebble. Leaderboard: leaderboard.go. VerificationCode:
--   verification_code.go. Manifest: manifest.go. Users: user.go. Courses: course.go, with ScanIds.
--   Assignments: assignment.go. Submissions: submission.go.
-- Encode: pkg/utils/encode.go, the short codes of ids that courses are joined by.
-- Hub: pkg/grader/grpc.
--   Model: the messages of proto/grader.proto and proto/model.proto. Outbox: GradeRequestQueue.
--   Mailbox: subscription.go. Pick: pickGrader. Pending: queuedList and queuedListIndex.
--   Subscribers: submissionSubs. State: the fields of GraderHubService. Schedule: schedulePass.
--   Handlers: queueing, CancelGrade, GradeCallback, onGraderOffline. Auth: auth.go.
--   Registration: RegisterGrader. Monitor: graderMonitor.
-- Service: pkg/grpc.
--   Model: tokens and error codes. Access: interceptor.go, the guards of a call and in Access/Table
--   the guards of each method. Upload: InitUpload and HandleFileUpload of file.go. Submitting:
--   validateSubmitters and checkSubmissionLimit of submission.go, and CreateSubmission in
--   Submitting/Creating. CourseMembers: the handlers of course.go that change courses and members.
--   History: getSubmissionHistory and GetSubmissionReport of submission.go.
-- Tests: a store and codecs in memory that satisfy the laws, and runs at concrete inputs.
--
-- A Go function is a function from the state before to the state after and the result; a method
-- under a mutex is one step. Go names are in lower case with underscores. A Go map with number
-- keys is a list of pairs of which the first with a key counts. A uint64 is a number with its
-- wrap-around written out; a string or []byte is the list of its bytes. Where list elements or
-- mailboxes are shared by pointer they have addresses.
--
-- Fuel: the loops of GetNextId and Publish are given two rounds, since a batch and a drained slot
-- are each enough for the next; a scheduling pass has the length of the pending list, since its
-- cursor only moves on; the search for a grader in it has one more than the number of graders,
-- since each round takes one out; the digits of a number have one
-- more than the number, and the code of a uint64 has at most 14 letters.
--
-- The service's handlers are functions of the store and the request; what the guards put into a
-- context is an argument. An upload is two steps, one for each hold of the manifest's lock,
-- and the check of a verification code is two, a read and a deletion. The time of a call is one
-- number. A panic is a result of its own.
--
-- Not modelled: logging, metrics and contexts; log streams; the streams of heartbeats; generated code;
-- the collection of expired manifests; the web server, mail, storage and the grading agent; and the
-- handlers of pkg/grpc for accounts, regrading, downloads and assignments.
pub mod Base
pub mod Repository
pub mod Encode
pub mod Hub
pub mod Service
pub mod Tests
