-- ===== src/Liq.antt =====
-- liq/: the query language, from text to statements, IR and SQL.
pub mod Syntax
pub mod Lexical
pub mod Parser
pub mod Ir
pub mod Compiler
pub mod Print
mod Examples
