-- ===== src/Gateway.antt =====
-- The proxy of the Gateway's management API: which path a request names, what it requires of the
-- caller, and the gate that decides.
pub mod Path
pub mod Classify
pub mod Access
