-- ===== src/Multiplex.antt =====
-- The multiplex FIFO: src/systemoc/headers/systemoc/smoc_multiplex_fifo.hpp and
-- cpp/smoc_multiplex_fifo.cpp. Virtual FIFOs share one ring buffer; each token has the colour of its
-- virtual FIFO, and the readers see the tokens of the first places only, in the configuration
-- without SYSTEMOC_ENABLE_ROUTING.
pub mod Chan
pub mod Consume
pub mod Ports
pub mod Colors
mod Index
mod Scan
mod Shift
pub mod Gather
pub mod Outlets
pub mod Announce
mod Windows
mod Recolor
pub mod Shared
pub mod Exec
mod Latency
pub mod Entries
pub mod Reads
pub mod Queues
pub mod Refine
pub mod Reset
mod Tests
