-- ===== src/Queue.antt =====
-- The pointers of the ring buffers behind the FIFOs: headers/smoc/detail/QueueRWPtr.hpp,
-- QueueRVWPtr.hpp and QueueFRVWPtr.hpp under src/systemoc. Each class is a child; a method that
-- changes the pointers returns the new record, or `none` where an `assert` fails.
pub mod Rw
pub mod Rvw
pub mod Frvw
pub mod Areas
pub mod Ptrs
pub mod Two
pub mod Refine
mod Tests
