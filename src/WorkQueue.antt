-- ===== src/WorkQueue.antt =====
-- The work items of app41_work_queue/src/main.c, over Zephyr's work queues as a parameter.
pub mod Main
pub mod Handlers
pub mod Order
pub mod Count
