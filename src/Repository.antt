-- ===== src/Repository.antt =====
-- pkg/repository: the key-value repositories and what they share.
pub mod Messages
pub mod Prefix
pub mod Decimal
pub mod Pebble
pub mod Sequencer
pub mod Codec
pub mod Grader
pub mod Merger
pub mod Keys
pub mod Stored
pub mod Batch
pub mod Manifest
pub mod Users
pub mod Courses
pub mod Assignments
pub mod Submissions
pub mod SubmissionReport
pub mod VerificationCode
pub mod Leaderboard
