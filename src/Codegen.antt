-- ===== src/Codegen.antt =====
-- hzcc/codegen: the labels of the generated code, and the local variables.
pub mod Labels
pub mod Analyzer
pub mod Stack
pub mod Visits
