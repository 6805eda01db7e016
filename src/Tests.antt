-- ===== src/Tests.antt =====
-- Concrete runs: tests of the definitions, and the theorems at inputs that meet their hypotheses.
pub mod Rows
pub mod History
pub mod Jobs
pub mod Publication
pub mod Runs
pub mod Workers
pub mod Safety
pub mod Maintenance
pub mod Events
pub mod Repairs
pub mod Profile
pub mod Resolver
pub mod Manual
pub mod Derived
pub mod Stale
pub mod Create
pub mod Policies
