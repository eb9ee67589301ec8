-- ===== src/Appliance.antt =====
-- internal/appliance: OAM's side of whole-Appliance operations. A plan is validated by the host
-- adapter and stored; a destructive one is authorized by a one-use challenge; a submitted one is
-- handed to the adapter, whose journal the stored row then follows.
pub mod Contract
pub mod Operation
pub mod Request
pub mod Host
pub mod HostAuth
pub mod HostFixture
pub mod Store
pub mod Caller
pub mod Planning
pub mod Lifecycle
pub mod Listing
pub mod Capabilities
pub mod Evolution
pub mod HostCalls
