-- ===== src/Examples.antt =====
-- Tests of the definitions, and the theorems at concrete inputs.
mod Numbers
mod Texts
mod Nodes
mod Program
mod Resolved
mod Comparisons
mod Lookup
mod SymbolFiles
mod Scopes
mod Builds
mod Library
mod Literals
mod TypeTests
