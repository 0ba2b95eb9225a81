-- ===== src/Network.antt =====
-- cppfoundation/src/class/cf_network.cpp: moving a buffer through a socket that may take or give
-- it in pieces. The system calls are parameters.
pub mod Segment
pub mod Blocking
pub mod Accept
pub mod Setup
pub mod Rights
