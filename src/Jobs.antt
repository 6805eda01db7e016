-- ===== src/Jobs.antt =====
-- Durable background jobs.
pub mod Row
pub mod Values
pub mod Delivery
pub mod Publication
pub mod Recovery
pub mod Constraints
pub mod Validity
pub mod Writes
pub mod Table
