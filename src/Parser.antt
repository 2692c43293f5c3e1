-- ===== src/Parser.antt =====
-- source/parser: tokens and the lexer.
pub mod Token
pub mod Lexer
