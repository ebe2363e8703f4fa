-- ===== src/Scheduler.antt =====
-- kernel/scheduler: the ready queues of the two policies.
pub mod Fifo
pub mod Task
pub mod RrQueue
pub mod PriorityQueue
pub mod Core
