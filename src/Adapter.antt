-- ===== src/Adapter.antt =====
-- src/home_assistant_adapter: the devices as Home Assistant entities.
pub mod Lifecycle
pub mod Identity
pub mod Handlers
pub mod Hatch
pub mod Sensor
pub mod Creation
pub mod MainBoard
pub mod Factory
