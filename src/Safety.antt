-- ===== src/Safety.antt =====
-- The diagnostic safety service: apps/api/src/bike_doc_api/services/safety.py.
pub mod Flags
pub mod Session
