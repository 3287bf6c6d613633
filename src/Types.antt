-- ===== src/Types.antt =====
-- src/Types.c: what the compiler asks of types, and which types go together.
-- A type is a node of the tree: an identifier of kind TYPE, or a node whose symbol is that of a
-- basic type, an array, a record, a pointer, a procedure, a string, NIL or a predeclared procedure.
pub mod Basics
pub mod Structured
pub mod Compatibility
pub mod Operators
pub mod Resolution
pub mod Sameness
pub mod Extension
pub mod Fields
pub mod FieldLookup
pub mod Predicates
pub mod RecordAssignment
pub mod Symmetry
pub mod Equality
pub use Basics.*
pub use Structured.*
pub use Compatibility.*
pub use Operators.*
