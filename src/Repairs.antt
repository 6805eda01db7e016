-- ===== src/Repairs.antt =====
-- Repair sessions, their turns, and the jobs that belong to them.
pub mod Model
pub mod Request
pub mod Producers
pub mod Accept
pub mod Terminalize
pub mod Create
