-- ===== src/Poller.antt =====
-- src/poller: the pollers of the three device types, and the service that runs them.
pub mod Devices
pub mod Service
