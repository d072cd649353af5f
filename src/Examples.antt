-- ===== src/Examples.antt =====
-- The theorems at concrete inputs.
pub mod Timing
pub mod Devices
pub mod Messages
pub mod Clients
pub mod Entities
pub mod Adapters
pub mod Boards
mod Lives
pub mod Logs
mod Makes
pub mod Platforms
pub mod Starts
mod Mains
mod Schedules
