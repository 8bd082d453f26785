-- ===== src/Sng.antt =====
-- The graphs of systemoc-sng, under src/systemoc-sng: the names of the ways to transform one.
pub mod Words
pub mod Transform
mod Tests
