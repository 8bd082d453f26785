-- ===== src/Fifo.antt =====
-- The FIFO channel without routing and latency areas, under src/systemoc/headers/smoc/detail:
-- Storage.hpp, QueueWithStorage.hpp, RingAccess.hpp, FifoStorage.hpp, FifoChanBase.hpp,
-- FifoEntry.hpp, FifoOutlet.hpp, with cpp/detail/FifoChanBase.cpp.
pub mod Store
pub mod Chan
pub mod Entry
pub mod Outlet
pub mod Segment
pub mod Written
pub mod Contents
pub mod Commit
pub mod Exec
pub mod Reset
pub mod Refine
mod Tests
