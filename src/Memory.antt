-- ===== src/Memory.antt =====
-- kernel/memory: the bitmap allocator of physical frames.
pub mod FrameBitmap
pub mod HeapAllocator
