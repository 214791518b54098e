-- ===== src/Lexer.antt =====
-- hzcc/parser/lexical/LexicalParser.cc: the lexical analysis of a source text.
pub mod State
pub mod Words
pub mod Literals
pub mod Stoll
pub mod Number
pub mod Line
pub mod Source
pub mod Advance
pub mod Strings
pub mod Integers
pub mod Comments
pub mod Printed
