-- ===== src/Workers.antt =====
-- The workers that pull deliveries and execute jobs: apps/api/src/bike_doc_api/workers.
pub mod Policy
pub mod Registry
pub mod Runtime
