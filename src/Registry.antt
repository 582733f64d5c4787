-- ===== src/Registry.antt =====
-- registry/: the frozen plans of the package registry, their registration, and the service over them.
pub mod Plans
pub mod Records
pub mod Service
pub mod Registration
pub mod Versions
pub mod Publication
pub mod Listing
mod Examples
