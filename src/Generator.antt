-- ===== src/Generator.antt =====
-- src/Generate.c: the text of the C program.
pub mod Literals
pub mod TypeDescriptors
pub mod DirPrefix
pub mod CaseLabels
pub mod Operators
pub mod CText
pub mod Reading
pub mod RoundTrip
