-- ===== src/Projects.antt =====
-- src/modules/projects: the project table and its service.
pub mod Entities
pub mod Lifecycle
mod Tests
