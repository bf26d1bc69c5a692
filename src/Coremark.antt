-- ===== src/Coremark.antt =====
-- coremark/src: the benchmark that the repository runs on the core, a module for each file or
-- group of functions.
pub mod Crc
pub mod State
pub mod Matrix
pub mod Calc
pub mod List
pub mod Printf
pub mod Main
