-- ===== src/DriverEntries.antt =====
-- scripts/carla/analyze_vulkan_driver_entries.py: the markers that serialized driver calls leave, and
-- the shader modules and render passes that they name. `Spirv` reads a module, `Markers` the markers and
-- the snapshots of render passes; `Instructions` and `MarkerLaws` prove.
pub mod Spirv
pub mod Instructions
pub mod Markers
pub mod MarkerLaws
mod Samples
