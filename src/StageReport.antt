-- ===== src/StageReport.antt =====
-- scripts/carla/stage_report.py: scoped, fail-closed evidence for a stage. `Host` is what the
-- script asks of the machine, `Files` its file helpers, `Content` the checks of one report,
-- `Validate` the recursive verification and `Write` the writer; the other modules prove.
pub mod Fault
pub mod Host
pub mod Files
pub mod Content
pub mod Validate
pub mod Step
pub mod Fuel
pub mod Verified
pub mod Blocks
pub mod CheckBlocks
pub mod FileBlocks
pub mod ContentBlock
pub mod Sound
pub mod Complete
pub mod Write
pub mod Verdict
mod Samples
