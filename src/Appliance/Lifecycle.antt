-- ===== src/Appliance/Lifecycle.antt =====
-- internal/appliance/lifecycle.go: authorizing, submitting, following and cancelling an operation.
pub mod Journal
pub mod Authorization
pub mod Submission
pub mod Reconciler
pub mod Cancellation
