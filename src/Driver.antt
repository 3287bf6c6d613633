-- ===== src/Driver.antt =====
-- src/obnc.c: the order in which the build driver finds the modules of a program, and what it compiles.
pub mod System
pub mod Compile
pub mod Update
pub mod Traverse
pub mod Finishes
pub mod Current
pub mod Discovered
