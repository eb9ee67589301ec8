-- ===== src/Appliance/Store.antt =====
-- The tables of database/migrations/postgres (appliance_operations, appliance_challenges,
-- appliance_audit), the statements that the appliance package runs on them, and the world in which
-- it runs: the clock, other sessions, failures, and the host adapter's answers.
pub mod Row
pub mod World
pub mod Statements
