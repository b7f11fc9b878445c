-- ===== src/Worker.antt =====
-- internal/worker: the programs that take tasks off the queue.
pub mod Notifications
