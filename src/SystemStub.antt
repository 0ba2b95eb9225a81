-- ===== src/SystemStub.antt =====
-- cppfoundation/src/stub/cf_system_stub.c: the functions through which the library calls the system.
pub mod Calling
pub mod Io
pub mod Ipc
pub mod Text
pub mod Process
pub mod Nulls
mod Tests
