-- ===== src/Bus.antt =====
-- Type ids, the event bus and the command dispatcher: src/common/event and src/common/command.
pub mod Ids
pub mod Events
pub mod Typed
pub mod Commands
