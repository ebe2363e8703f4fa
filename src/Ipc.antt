-- ===== src/Ipc.antt =====
-- kernel/ipc: message queues and shared memory.
pub mod MsgQueue
pub mod SharedMemory
