-- ===== src/Lib.antt =====
-- NexaKernel, a teaching kernel for i386 in C. This library models the parts that keep state in
-- memory and decide something: the containers of lib/dsa, the bookkeeping of physical frames, the
-- scheduler with its tasks and queues, and the two subsystems of inter-process communication. The
-- devices, the interrupt glue and the shell only move bytes to ports, or call these parts.
--
-- How the parts interact. The ready queue takes its array from the kernel heap; the scheduler holds
-- its runnable tasks in it. Shared memory takes each region from the heap. Message queues lie in a
-- static table. The frame allocator keeps one bit for each frame in a bitmap of lib/dsa.
--
-- Which file models what. A C function keeps its name. The static variables of a C file are a record
-- that its functions take and return; a result of -1 or a null pointer is `none`, `false` or 0, as the
-- comment at the function says; an unsigned 32-bit sum, difference or product wraps (Base.Words).
-- - Base: Boolean tests, lists over the native numbers, 32-bit words, signed numbers.
-- - Ring: slots of a ring of fixed capacity and the list that it holds, for the three ring buffers.
-- - Allocator: `kmalloc` and `kfree` of kernel/memory/memory.h as a parameter. The one law is that a
--   granted block does not lie at 0 and has room for the bytes asked for, where rounding them up to a
--   multiple of 8 does not wrap. Allocator.Bump and Memory.HeapAllocator.Interface have it.
-- - Scheduler.RrQueue: kernel/scheduler/dsa_structures/round_robin_queue.c. Scheduler.Fifo is what it
--   promises, without indices. Its children: Invariant, Remove, Refine (each operation), Run (a
--   client's calls).
-- - Scheduler.PriorityQueue: kernel/scheduler/dsa_structures/priority_queue.c. The fields of the tasks
--   are a parameter. Its children: Order (the comparison as an order of numbers), Sift (heaps as
--   functions), Heap (the two loops), Tally (how often the array holds a task), Restore (the repair that
--   pq_remove and pq_update share), Find (find_task), Queue (the
--   invariant, pq_enqueue), Removal (pq_dequeue, pq_remove).
-- - Scheduler.Task: kernel/scheduler/task.c, without the calls that reschedule. A task pointer is one
--   more than the index of its slot in `task_table`, 0 for NULL. What lies on a task's stack is one of
--   four: nothing, the frame of `setup_task_stack`, one that a switch has saved, or one that a switch has
--   saved within task_exit, behind which the task halts in an endless loop. Its child: Create.
-- - Scheduler.Core: kernel/scheduler/scheduler.c, the calls of task.c that reschedule, and
--   kernel/scheduler/context_switch.asm as far as it chooses where execution goes on. A call that ends
--   in a switch yields the state in which the task that was switched to goes on; `none` is a crash. Its
--   children: Calls (while the flag of schedule is set), Frames and Resume (what the steps of schedule and
--   a switch leave alone), Stuck (after a switch to a task that runs for the first time), Front (one call
--   of schedule), Start (scheduler_start), Boot (scheduler_init). The field `leaving` of the state says
--   that the task on the CPU is to halt in the loop of task_exit; such a task makes no call any more.
-- - Ipc.MsgQueue: kernel/ipc/message_queue.c, with memcpy of lib/cstd/memory.c. Its children: Bytes,
--   Invariant (send), Typed and Receive, Keys and Lookup (the table), System (all calls).
-- - Ipc.SharedMemory: kernel/ipc/shared_memory.c. Its children: Counting, Invariant, Attach, Detach.
-- - Dsa.Bitmap: lib/dsa/bitmap.c. Its children: Bits (one byte, by evaluation over all bytes), Access,
--   Find, Run (contiguous bits and ranges), Counting.
-- - Dsa.Heap: lib/dsa/heap.c, its definitions with a run.
-- - Dsa.DoublyLinked: lib/dsa/list.c. The links of the nodes are a function of the address. Its children:
--   Chain (links that stand for a list of nodes, list_push_front), Remove, Ends (list_pop_front,
--   list_push_back).
-- - Dsa.Queue: lib/dsa/queue.c. Its child Order shows the order of the entries.
-- - Memory.HeapAllocator: kernel/memory/heap_allocator.c. The headers of the blocks and the bytes of the
--   heap are two functions of the address, so that no write of a client reaches a header. Its children:
--   Chunks (what it promises, a row of chunks without addresses), Rows and Releases (laws of that row),
--   Linked (headers that stand for a row), Local and Joining (the changes at one block), Refine and Free
--   (kmalloc and kfree), Twice (a second kfree of one pointer), Start (heap_init), Resize (krealloc,
--   kcalloc), Aligned, Validate, Interface (this heap as the `Allocator` that the parts above take).
-- - Cstd.Memory: lib/cstd/memory.c over one memory of bytes. Its child is Copy.
-- - Cstd.String: lib/cstd/string.c over the same memory. Its children: Text (strings in memory, strlen),
--   Copy (strcpy), Compare (strcmp), Occurs (strstr).
-- - Memory.FrameBitmap: kernel/memory/dsa_structures/bitmap.c. Its children: Invariant, Alloc.
--
-- Loops. A counted loop recurs on the rounds it has left, which is its bound in the code. The loop that
-- closes the gap in a ring runs on fuel: the capacity of the ready queue, and 32, the size of a message
-- queue. In a ring each round moves an index one slot on towards another slot of the ring, so that is
-- enough, and the theorems on removal, on receive and on the heap's order rest on it. The loops of the
-- priority queue and of the heap have the index and the size as fuel, for they go to a parent or to a
-- child. The loop that counts the ones of a byte has eight rounds of fuel, for it clears one bit a round.
-- The search of kmalloc has the size of the heap in bytes as fuel, and each block takes 20 of them. The
-- loops over a string have the length of the memory and one more, and each round moves a pointer on.
--
-- What is not modelled. Null pointers given for a bitmap, a queue, a message buffer or a message queue's data
-- are left out. An interrupt comes between two calls, not within one. Registers, paging, the free
-- list and the buddy tree, the file system, the drivers, the system calls and the shell are not modelled.
pub mod Base
pub mod Ring
pub mod Allocator
pub mod Scheduler
pub mod Ipc
pub mod Dsa
pub mod Memory
pub mod Cstd
