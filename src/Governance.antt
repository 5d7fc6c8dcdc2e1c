-- ===== src/Governance.antt =====
-- src/modules/governance: proposals, votes and the timelocked protocol configuration.
pub mod Entities
pub mod Config
pub mod Quorum
pub mod Changes
pub mod Proposals
pub mod Voting
pub mod Execution
mod Tests
