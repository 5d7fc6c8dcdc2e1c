-- ===== src/Sensors.antt =====
-- src/modules/sensors: devices, the readings that they send, and the batches that collect them.
pub mod Entities
pub mod Access
pub mod Batches
pub mod Validation
pub mod Ingestion
pub mod Devices
mod Tests
