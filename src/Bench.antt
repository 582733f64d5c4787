-- ===== src/Bench.antt =====
-- scripts/bench: the rows that the benchmarks write, and the harness files.
pub mod Rows
pub mod Csv
pub mod Tiers
pub mod Harness
pub mod Percentile
pub mod Lab
pub mod Measure
pub mod Collect
pub mod Rig
pub mod Compare
mod Examples
mod Runs
