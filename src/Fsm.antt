-- ===== src/Fsm.antt =====
-- The firing FSM of an actor: src/systemoc/cpp/detail/FSM/ and the guards and actions of its
-- transitions, which the headers smoc/smoc_guard.hpp and smoc/smoc_action.hpp declare.
pub mod Outcome
pub mod Rule
pub mod State
pub mod Expand
pub mod Finalise
pub mod Config
pub mod Product
pub mod Explore
pub mod Elaborate
mod Table
mod Reach
mod Ends
mod Junctions
mod Lowest
mod Tests
mod Codes
mod Ancestors
mod Sets
mod Targets
mod Total
mod Build
