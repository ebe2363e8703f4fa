-- ===== src/Dsa.antt =====
-- lib/dsa: the data structures that the kernel is built on.
pub mod Bitmap
pub mod Queue
pub mod DoublyLinked
pub mod Heap
