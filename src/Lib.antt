-- ===== src/Lib.antt =====
-- Verification of OBNC, a compiler that translates Oberon-07 to C, with the run-time functions that
-- the translated programs call.
--
-- How the parts interact. The parser (src/Oberon.y) builds syntax trees (src/Trees.c) and asks
-- src/Table.c what its names mean, and src/Types.c which types go together; src/Range.c checks the
-- constants that it folds. The build driver finds modules with src/ModulePaths.c, names files with
-- src/Paths.c and passes them to a shell; src/Util.c and src/Maps.c serve all of these.
-- src/Generate.c prints the program in C, which links lib/obnc/OBNC.c, and the modules in lib/obnc
-- that it imports.
--
-- Prelude: shared names; the results of runs (`ok`, `abort` for a failed assert, a use of NULL or an
-- undefined operation, `diverge` for a loop that is cut off, `halts` for an error message and exit),
-- bytes, and integers. Trees: src/Trees.c and src/Trees.h. A `Store` holds the nodes by address; a
-- function of C that writes a node takes and returns the store. Nodes: Trees_NewNode to
-- Trees_ReverseList. Idents: Trees_NewIdent to Trees_SetUsed. Constants: Trees_Value to Trees_Set.
-- Labels: PrintLabel. Types: src/Types.c. Basics, Structured, Compatibility and Operators define its
-- functions, in the order of the file, with the prefix Types_ left out and the words of a name
-- joined by _; the other modules prove. Table: src/Table.c. Scopes: Table_Init to
-- Table_UnusedIdentifiers, whose static variables are the record `State`. Scan, Reader, Writer:
-- ReadIdent to ReadSExp, and Write, which read and write one declaration of a symbol file. Import,
-- Export: Table_Import, Table_ImportSystem, Table_Export. A file is its contents; how real numbers
-- are printed and scanned are parameters. The other modules prove. Driver: src/obnc.c, from
-- NewModuleNode to Traverse. System: what the driver asks of the operating system, as a record over
-- a state of the files; Compile: UnquotedString to CompileC; Update: CompileOberon, and Compile to
-- SymFileIsSubset; Traverse: the imports and Traverse1. The other modules prove. Range: src/Range.c,
-- for integers of any width, of which `max` is the largest; C computes in int, with 32 bits, where
-- OBNC_INTEGER is shorter. Maps: src/Maps.c. Runtime: lib/obnc/OBNC.c. Traps: the operators and
-- checks of lib/obnc/OBNC.h that trap. The other modules prove. Generator: src/Generate.c. Literals: GenerateString and GenerateChar, with the meaning of
-- their text in C in CText. TypeDescriptors: TypeDescIdent to GenerateTypeDescDecl, and the operands
-- of GenerateISExpression, which Runtime.Traps uses at run time. DirPrefix: DirPrefix. Library:
-- lib/obnc/Files.c. Disk: files, names and handles, from Files__Old_ to Files__GetDate_; a procedure
-- of C takes and returns the disk. Riders: Files__Set_ to Files__WriteBytes_, where ReadInt,
-- ReadReal and ReadSet are `read_object` for a format, as are the writes. Numbers: Files__ReadNum_
-- and Files__WriteNum_. The modules below these prove. Text: src/Util.c, src/Paths.c and
-- src/ModulePaths.c. Whether a file exists is a parameter, and so are isspace and isupper of
-- a char, which C leaves undefined for a negative one. Examples: tests, and the theorems at concrete
-- inputs.
--
-- Fuel. The loops of Types that follow aliases, base types, lists of fields and identifiers run on
-- one unit more than there are nodes, since a chain of distinct nodes is no longer. `types_equal`,
-- `formal_parameters_match` and `array_compatible`, and `reverse_list`, take their fuel as an
-- argument, as do the functions that read, resolve and write the declarations of symbol files, which
-- recur as deep as these nest, and `traverse`, for which more than the modules of the program is
-- enough. The list of imported identifiers is searched with as much fuel as there are nodes, and one
-- more. `generate_type_ids` runs on one unit more than there are nodes. `groups` runs on the size of
-- the C buffer, the width of INTEGER in bits, of which a number of 32 bits needs five.
-- `contains_procedure_call`, `range_labels` and `label_list` take their fuel as an argument; more
-- than the nodes of the tree, and more than the labels, is enough for the first two. The other loops
-- recur on a list or on the space of a buffer.
--
-- Not modelled: the file positions in import messages (src/Table.c), the parser and scanner
-- (src/Oberon.y, src/Oberon.l, which generate code), most of the code generator (src/Generate.c,
-- which prints statements and expressions to a stream), the linking and the options of the driver
-- (src/obnc.c), the other commands, the dump of a tree (Trees_Print), floating point, memory
-- allocation, and what only calls the C library or the operating system. In lib/obnc/Files.c
-- buffering and failures of the system other than a refused name are left out. A real number is a
-- code that is stored and read back. Messages of a check are reduced to their kind: silent, a
-- warning, or the end of the compiler.
pub mod Prelude
pub mod Range
pub mod Maps
pub mod Trees
pub mod Types
pub mod Table
pub mod Driver
pub mod Generator
pub mod Library
pub mod Examples
pub mod Runtime
pub mod Text
