-- ===== src/MultiReader.antt =====
-- The FIFO with several readers and writers, src/systemoc/headers/systemoc/smoc_multireader_fifo.hpp and
-- src/systemoc/cpp/smoc_multireader_fifo.cpp: all ports share one ring and its two event maps.
pub mod Chan
pub mod Ports
pub mod Exec
pub mod Refine
pub mod Ids
mod Tests
