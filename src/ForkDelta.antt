-- ===== src/ForkDelta.antt =====
-- scripts/carla/freeze_fork_delta.py: the patches that hold the forks' working-tree deltas, and the
-- test that they are current. `Delta` is the script; `Drift` and `RoundTrip` prove.
pub mod Delta
pub mod Drift
pub mod RoundTrip
mod Samples
