-- ===== src/Oracle.antt =====
-- src/modules/oracle: the submission of closed reading batches to the chain.
pub mod Entities
pub mod Submissions
pub mod Aggregation
pub mod Scheduler
pub mod Scoring
pub mod Payload
pub mod Processor
pub mod Reconciliation
mod Tests
