-- ===== src/Examples.antt =====
-- The theorems at concrete inputs, and runs of the definitions.
mod Data
mod Gateway
mod Appliance
mod Reports
mod Authorization
mod Reserved
mod Migrate
mod HostAuth
mod HostFixture
mod Users
mod Passwords
