-- ===== src/Worker.antt =====
-- internal/worker: the processors of the queue's tasks, the scheduler and the instant-logs daemon.
pub mod Pull
pub mod Verify
pub mod Expire
pub mod Schedule
pub mod Streams
pub mod Security
pub mod Export
