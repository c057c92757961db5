-- ===== src/Ed.antt =====
-- The crate rcs-ed: the `diff -n` scripts of RCS deltas, read by `Command` and `Script`, and applied to
-- a file by `File` and `LineCommands`.
pub mod Reader
pub mod Command
pub mod Script
pub mod File
pub mod Bytes
pub mod Edit
pub mod Length
pub mod Print
pub mod RoundTrip
pub mod Tests
