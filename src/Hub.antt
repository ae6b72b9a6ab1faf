-- ===== src/Hub.antt =====
-- pkg/grader/grpc: the hub that queues submissions, schedules them to graders and passes reports
-- on.
pub mod Model
pub mod Outbox
pub mod Mailbox
pub mod Pick
pub mod Pending
pub mod Subscribers
pub mod State
pub mod Schedule
pub mod Auth
pub mod Handlers
pub mod Registration
pub mod Monitor
