-- ===== src/Lib.antt =====
-- memequeue: a queue of byte messages in memory that two processes share.
--
-- The program. `MemeQueue` (src/lib.rs) keeps messages in a ring that is mapped twice, side by side
-- (src/mmap.rs), so that a message is contiguous wherever it begins. `send` lets a callback write a
-- message through a `MemeWriter` behind the last one, `recv` gives the first one to a callback. The
-- offsets of the first message (left) and of the end (right) stand with two locks and the counts of
-- waiters in a header page (src/control/shmem_futex.rs); a process sleeps on the offset of the other
-- side. A handshake (src/handshake) gives both sides the same file.
--
-- The model.
-- Prelude: shared names, words with their wrap-around, lists.
-- Io: `io::Error`, results, and calls that may not return.
-- Memory: the bytes behind the two mappings; a read or write at an offset goes round at the size.
-- Control: `Side`, `Half`, `Header` and the operations on offsets (src/control).
-- Control/Eventfd: `wait` and `notify` of src/control/eventfd.rs.
-- Examples: the buffers of examples/send_seq.rs and examples/recv_seq.rs; Sends has the callback that
--   sends one, over a queue with the futex control.
-- Process: `lock`, `unlock` (the guard's drop), `wait`, `notify`, as one process makes them. The
--   other processes are a function `peer` on the shared memory that runs before each access which
--   they can influence. `futex_wait` compares the offset and sleeps until a run of `peer` wakes that
--   futex, which it may also do for no reason, as Linux does.
-- Lock: `lock` and the drop of its guard among any number of threads, as a step relation on the lock word
--   and where each thread stands. Inv has the invariant, Safety what follows; Runs relates `lock` and `unlock` of Process to it.
-- Wakeup: `wait` of the sender and `notify` of any number of receivers on the left offset, as a step
--   relation; Inv has the invariant and what follows, Runs relates `wait` and `notify` of Process to it.
-- Os: code that makes system calls, which are parameters of it, and what it comes to.
-- Mmap: `QueueMmaps::from_fd` of src/mmap.rs; Regions has which bytes of which file stand where.
-- Handshake: the queue's size. NamedFile and UdsMemfd are the files of src/handshake; UdsMemfd/Fifo
--   has the exchange of descriptors over a socket that keeps the order of its messages.
-- Construct: `MemeQueue::with_config` over any handshake and control, `ShmemFutexControl::new`, and in
--   Construct/Eventfd `EventFdControl::new`; Handshakes shows that both handshakes keep to what these ask
--   of them; Spaces and Empty hold the proofs.
-- System: all processes on one queue as a step relation; what the processes with the locks do is one
--   shared access at a time, and the locks are slots. Keeps has its invariant, SenderSteps and
--   ReceiverSteps the proofs, Fifo what follows; RecvRuns to SendRuns relate `send` and `recv` to it.
-- Queue: src/lib.rs. Types, Writer (`MemeWriter`), Send, Recv; Frames and Inv hold the view of the
--   ring as a list of messages and the invariant; Writer/Steps to Writer/Total, Send/Refine and
--   Recv/Refine the proofs; Peers has the receiver as a peer of the sender; Corners
--   has the cases where the code fails; Tests has runs on a ring of 32 bytes.
--
-- Bounds. `usize` has 64 bits and is stored low byte first. Offsets are `u32` with wrap-around, and
-- the sizes for which they do not wrap are a hypothesis (IsMapped). Loops that wait take fuel and
-- give `none` when it runs out: on an empty queue `write` needs two rounds, if there is a message `recv`
-- needs one; a sleep needs as many as it takes the others to wake it. The loop of `uds_memfd` needs one
-- more than
-- there are descriptors. `debug_assert!` is as in a release build, where it does nothing.
--
-- Not modelled: the statistics, the clock, what is printed, weak memory (every access is sequentially
-- consistent), the loops of the examples' `main`, which run over EventFdControl, and the benchmarks
-- around the library.
pub mod Prelude
pub mod Memory
pub mod Control
pub mod Io
pub mod Process
pub mod Mmap
pub mod Queue
pub mod Os
pub mod Handshake
pub mod Examples
pub mod System
pub mod Construct
pub mod Lock
pub mod Wakeup
