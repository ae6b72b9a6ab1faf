-- ===== src/Service.antt =====
-- pkg/grpc: the service that users and staff call, from its access rules to its handlers.
pub mod Model
pub mod Access
pub mod Upload
pub mod Submitting
pub mod CourseMembers
pub mod History
