-- ===== src/Ota.antt =====
-- app90_ota: the firmware upgrade over the serial line (app90_ota/src).
pub mod Frame
pub mod Parse
pub mod World
pub mod Wire
pub mod Handler
pub mod Dispatch
pub mod Laws
pub mod Session
pub mod Answers
pub mod Gate
pub mod Upload
pub mod Image
pub mod Rx
