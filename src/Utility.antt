-- ===== src/Utility.antt =====
-- The helpers of cppfoundation/include/cppfoundation: hexadecimal dumps of strings, and the parts of
-- a path. A `char` is its code, and a string has no terminator unless it says so.
pub mod Text
pub mod Program
pub mod Daemon
