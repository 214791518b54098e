-- ===== src/Examples.antt =====
-- The theorems at concrete inputs, and runs of the definitions.
mod Lexing
mod Parsing
mod Generating
mod Variables
mod Optimizing
mod Statements
mod Visiting
mod Checking
