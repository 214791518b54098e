-- ===== src/Syntax.antt =====
-- hzcc/parser/syntax and hzcc/utils/cached_list.h: the token list and the parser of expressions.
pub mod Tokens
pub mod Tree
pub mod Names
pub mod Operand
pub mod Operators
pub mod Parser
pub mod Progress
pub mod Grammar
pub mod Lookup
pub mod Statements
