-- ===== src/App.antt =====
-- src/app: how the program starts.
pub mod Logger
pub mod Config
pub mod HomeAssistant
pub mod MainBoardInit
pub mod Attached
pub mod Serving
pub mod Main
