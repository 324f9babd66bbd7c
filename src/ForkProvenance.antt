-- ===== src/ForkProvenance.antt =====
-- scripts/carla/report_fork_provenance.py: the identity of the forks, and its comparison with a
-- recorded one. `Report` is the script; `Drift` proves.
pub mod Report
pub mod Drift
mod Samples
