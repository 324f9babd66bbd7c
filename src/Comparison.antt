-- ===== src/Comparison.antt =====
-- scripts/carla/compare_gb10_vulkan_diagnostics.py: one gate run per Vulkan configuration, the
-- verdict on each and on the whole. `Decision` reads a run's decision.md, `Runs` makes the runs and
-- the report, `Laws` proves.
pub mod Decision
pub mod Runs
pub mod Laws
mod Samples
