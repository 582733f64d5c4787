-- ===== src/Liorm.antt =====
-- liorm/: the catalog, the raw-SQL capabilities, the plan registry and the audit trail.
pub mod Catalog
pub mod Capabilities
pub mod Execute
pub mod Embed
pub mod Audit
mod Examples
