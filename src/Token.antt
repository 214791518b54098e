-- ===== src/Token.antt =====
-- hzcc/parser/common/Token.h and Token.cc.
pub mod Kinds
pub mod Tables
pub mod Symbols
pub mod Value
