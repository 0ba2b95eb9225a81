-- ===== src/Containers.antt =====
-- Containers under a lock: cf_concurrency_set.hpp and cf_concurrency_map.hpp of
-- cppfoundation/include/cppfoundation. A call holds the lock from its start to its end, so that
-- each is one step.
pub mod OrderedSet
pub mod Sets
pub mod Map
