-- ===== src/StdLib.antt =====
-- source/lib: the standard library.
pub mod Csv
