-- ===== src/Register.antt =====
-- The register, a channel of one value that is written over: under src/systemoc/headers/smoc/detail
-- RegisterChanBase.hpp, RegisterStorage.hpp, RegisterEntry.hpp, RegisterOutlet.hpp, and Storage<T, true>
-- of Storage.hpp.
pub mod Chan
pub mod Ports
pub mod Values
mod Tests
