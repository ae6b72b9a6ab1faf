-- ===== src/Tests.antt =====
-- A store and codecs in memory, and runs of the models at concrete inputs.
pub mod Store
pub mod Batch
pub mod Codecs
pub mod Data
pub mod Repository
mod Outbox
pub mod Pending
mod Subscribers
pub mod Hub
mod Handlers
mod Auth
mod Members
mod Codes
mod Submitting
mod History
mod Uploads
mod Access
mod Registration
