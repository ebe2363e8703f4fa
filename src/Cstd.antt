-- ===== src/Cstd.antt =====
-- lib/cstd: the memory and the string routines.
pub mod Memory
pub mod String
