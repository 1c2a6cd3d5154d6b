-- ===== src/Deploy.antt =====
-- internal/application: the delivery of an artifact to a device, and the journal of attempts in
-- internal/infrastructure/sqlite.
pub mod Failure
pub mod Attempt
pub mod Journal
pub mod Service
pub mod Routes
pub mod Calls
pub mod Groups
pub mod Progress
pub mod Prepare
pub mod Change
pub mod Lifecycle
pub mod Delivery
pub mod Cleanup
pub mod Surface
pub mod Removal
