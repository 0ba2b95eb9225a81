-- ===== src/CircularQueue.antt =====
-- cpplibrary/circularqueue: a queue of messages in a shared memory region.
pub mod Def
pub mod Meta
pub mod Element
pub mod Transfer
pub mod Create
pub mod PosixShm
mod Tests
