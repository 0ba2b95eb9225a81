-- ===== src/Ipc.antt =====
-- cppfoundation/src/class/cf_ipc.cpp: shared memory, mapped files and message queues. The system
-- calls are parameters.
pub mod SharedMemory
pub mod MemMapped
pub mod SysvMemory
pub mod SysvQueue
pub mod PosixQueue
pub mod Pipe
mod Tests
