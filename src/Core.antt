-- ===== src/Core.antt =====
-- The parts of src/core.
pub mod Encoding
pub mod Dict
pub mod IntSet
pub mod Listpack
pub mod Object
pub mod Glob
