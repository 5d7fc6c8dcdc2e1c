-- ===== src/Indexer.antt =====
-- src/modules/indexer: the polling of contract events, and what they do to the tables.
pub mod Events
pub mod Handlers
pub mod Polling
mod Tests
