-- ===== src/Credits.antt =====
-- src/modules/credits: the retirement of credits.
pub mod Entities
pub mod Retiring
pub mod Portfolio
mod Tests
