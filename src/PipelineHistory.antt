-- ===== src/PipelineHistory.antt =====
-- scripts/carla/analyze_vulkan_pipeline_history.py: the bounded history of pipeline creations before
-- a crash. `Record` reads its lines, `History` is `analyze`; the other modules prove.
pub mod Record
pub mod History
pub mod Matching
pub mod Unmatched
mod Samples
