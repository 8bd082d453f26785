-- ===== src/Node.antt =====
-- The life of an actor in the simulation: src/systemoc/cpp/detail/NodeBase.cpp,
-- cpp/smoc_periodic_actor.cpp and cpp/detail/NodeQueue.cpp.
pub mod Base
pub mod Periodic
pub mod TimeQueue
mod Listeners
mod Flags
mod Schedule
mod Release
mod Order
mod Due
mod Search
mod Searched
mod Signals
mod Tests
