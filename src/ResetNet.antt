-- ===== src/ResetNet.antt =====
-- Reset networks: src/systemoc/cpp/smoc_reset.cpp and src/systemoc/headers/systemoc/smoc_reset.hpp. A token
-- on a reset channel resets the channels and the nodes that are connected to it.
pub mod Chan
pub mod Order
pub mod Fifos
mod Tests
