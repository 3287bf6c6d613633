-- ===== src/Library.antt =====
-- lib/obnc: the modules of the library that compiled Oberon programs import.
pub mod Disk
pub mod Riders
pub mod Numbers
