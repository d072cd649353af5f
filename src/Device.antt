-- ===== src/Device.antt =====
-- Device bookkeeping: src/device and src/main_board.
pub mod Tree
pub mod Registry
