-- ===== src/RuntimeEntry.antt =====
-- scripts/carla/runtime_entry_report.py: the pinned inputs of a runtime invocation. `Inputs` is the
-- capture of the manifest and its verification; `InputLaws` proves.
pub mod Inputs
pub mod InputLaws
mod Samples
