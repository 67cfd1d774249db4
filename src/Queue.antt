-- ===== src/Queue.antt =====
-- src/lib.rs, over the futex control: the queue, its writer, `send` and `recv`.
pub mod Types
pub mod Frames
pub mod Inv
pub mod Writer
pub mod Send
pub mod Recv
pub mod Peers
pub mod Corners
pub mod Tests
