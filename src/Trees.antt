-- ===== src/Trees.antt =====
-- src/Trees.c: the nodes of the syntax tree, which also carry types and identifiers.
-- A node is an address into a store, and NULL is address 0. Nodes are made at the next free address
-- and never freed (the C code uses a garbage collector). An `assert` that fails, and a union that is
-- read under another tag, end the run by `abort`. Real numbers are kept as their bit patterns.
pub mod Symbols
pub mod Nodes
pub mod Idents
pub mod Constants
pub mod ListReversal
pub mod Labels
pub mod RoundTrips
pub mod Strings
pub mod Setters
pub use Nodes.*
pub use Idents.*
pub use Constants.*
