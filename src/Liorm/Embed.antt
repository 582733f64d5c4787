-- ===== src/Liorm/Embed.antt =====
-- liorm/embed_engine.py: the session of the embedded engine, and the SQL that is handed to it.
pub mod Binary
pub mod Flatten
pub mod Session
pub mod Seed
pub mod Names
pub mod Columns
pub mod Clauses
pub mod Sessions
pub mod Missing
mod Examples
