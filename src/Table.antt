-- ===== src/Table.antt =====
-- src/Table.c: the symbol table with its scopes, and the symbol files that carry the exported
-- identifiers of a module to its clients.
pub mod Scopes
pub mod Invariant
pub mod Declare
pub mod Lookup
pub mod Imported
pub mod Initial
pub mod Reachable
pub mod Symbols
pub mod Scan
pub mod Reader
pub mod Writer
pub mod Import
pub mod Export
pub mod Numbers
pub mod Constants
