-- ===== src/Lib.antt =====
-- Neftis, a microkernel: its lists, trees and hooks, its scheduler, and the waiting and the messages
-- that are built on it.
--
-- The parts and how they interact. common/list.c links nodes that lie in the structures of others.
-- The default scheduler, microkernel/scheds/default/defsched.c behind microkernel/sched.c, keeps
-- the running tasks in a ring of that file and turns it at every timer tick and every `schedule`.
-- A critical section (TASK_ATOMIC_ENTER and TASK_ATOMIC_LEAVE of microkernel/include/lock/lock.h)
-- pauses the scheduler, which then notes that it was called and switches when it is resumed. Wait
-- queues (microkernel/waitqueue.c) put tasks to sleep and wake them, for mutexes
-- (microkernel/mutex.c) and events (microkernel/event.c). The message queues of the tasks
-- (microkernel/msg.c) signal an event when a message comes in.
--
-- Base holds the shared names, the Boolean tests and the lists as finite sets. Links models
-- common/list.c over a store of `next`, `prev` and `index` fields: Linear, Circular and Sorted have
-- the functions of these prefixes under their names, and Links.Chain says what a well formed list
-- or ring is. Sched models the scheduler and `switch_to` of microkernel/task.c, and its children
-- WaitQueue, Mutex and Event the files of these names; the others prove: Sched.Invariant the
-- soundness of the run queue, Turns, Sleep, Waiting, Signals and Fifo who runs, sleeps and is woken,
-- Critical what a critical section keeps, Exclusion the mutexes as a step relation.
-- Msg models the table of identifiers of microkernel/msg.c, Msg.Queue its messages and bodies and
-- Msg.Calls its operations, Msg.Syscalls the system calls around them; Ids and Fresh prove the
-- free list of the table, Request, Send, Receive and Release what the operations do, Passing and
-- Delivery what `sys_msg_write` does from the request to the arrival.
-- Task models the table of identifiers of microkernel/task.c, and Task.Table proves the registration.
-- Object models the references to kernel objects, microkernel/object.c, by which messages share their
-- bodies: Object.Sound says when the objects are well formed, Close proves what the end of a
-- reference does, Destroy that of a list of references, Instance a new object.
-- Rbtree models common/rbtree.c over a store of nodes with all their pointers, among them the list
-- in the order of the keys and the cache of the last search: Rbtree.Balance has the rotations and
-- the five cases of an insertion, Operations the functions on a tree. Shape says what tree the
-- pointers hold, and what stands around a node of it; Rotate, Turn and Rotation prove a rotation,
-- Cases, Uncle, Outer, Inner and Rebalance that the five cases do what the function of Fix does to
-- the shape, which RedBlack and Inorder prove to restore the red-black invariant and to keep the
-- order. Listing, Attach, Descend and Placing prove the way down, Entries is the map that the tree
-- implements, and Insertion, Lookup, Height and Clear have the theorems on whole operations.
-- Hook models common/hook.c: Hook.Bucket proves the registration, Trigger what is called, Free what
-- is freed. irq.c and the port to the machine keep their handlers in such a bucket.
-- Text models the strings and blocks of common/stdlib.c, and Text.Number the conversion of numbers:
-- Text.Block proves `memcpy`, Compare `strlen` and `strcmp`, Decimal and Conversion `ultostr` and
-- `strtoul`.
-- Vremap models the free pages of a remapping region, microkernel/vremap.c: Vremap.Cover says which
-- addresses they cover, Merging proves `vremap_data_try_merge`, Region what taking pages and giving
-- them back do.
--
-- Bounds and fuel. The loops of the lists run on fuel; the theorems ask for as much fuel as the
-- list has nodes, or one more, and show that the loop then ends. `schedule` and `defsched_sched`
-- call each other when a critical section is left; one call deep is enough. The states, reasons and
-- identifiers of tasks are numbers that the code only compares. The slots of the message table are
-- words of 32 bits, and -1 is the largest of them. The search of a message runs on fuel: one step
-- is enough for any link, and no fuel where no message matches. A walk down a tree needs as much
-- fuel as the tree is high, which is at most twice the logarithm of its size; the keys, of 64 bits
-- with a sign, are counted from the lowest. A number of 32 bits has ten digits at most, and as much
-- fuel to be written. The merge of free pages needs more fuel than there are chunks. A `long` that
-- overflows in `strtoul` wraps around. `ts_switch_count` is a number without a bound.
--
-- In Sched and its children a ring or a list is the list of its nodes. Not modelled: several
-- processors, spin locks and the interrupt flag; the machine's registers, so that an operation that
-- switches tasks returns the state in which the next task goes on; the registration of schedulers
-- and their priorities, which are stubs; the printers of lists; the pages of messages and the
-- regions they are mapped in. The other parts of the repository are not modelled either: memory
-- management but for that allocator, the classes and copies of objects, loaders, the port to the
-- machine, and what runs in user space.
pub mod Base
pub mod Hook
pub mod Links
pub mod Msg
pub mod Object
pub mod Rbtree
pub mod Sched
pub mod Task
pub mod Text
pub mod Vremap
