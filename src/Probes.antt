-- ===== src/Probes.antt =====
-- scripts/security_probe.py and scripts/audit_probe.py: scripts that run liq and liorm on fixed inputs
-- and exit with 0 if every check of the probe holds.
pub mod Steps
pub mod Sources
pub mod Exits
pub mod Race
pub mod Security
pub mod Trail
pub mod Denials
pub mod Passing
mod Examples
