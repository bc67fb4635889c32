-- ===== src/Ota/Handler.antt =====
-- The command handlers of ota_handler.c. Each takes the sequence number, the array `data` of the
-- frame with all that it holds, and `len`, the number of its bytes that belong to the frame.
pub mod Control
pub mod Transfer
pub mod Verify
