-- ===== src/CacheLifecycle.antt =====
-- scripts/carla/analyze_vulkan_cache_lifecycle.py: the log of cache calls is replayed, and the call
-- that did not return is compared with the fault marker. `Event` is the log, `Replay` the loop,
-- `Report` the verdict; `Balance` and `Anomaly` prove.
pub mod Event
pub mod Replay
pub mod Report
pub mod Balance
pub mod Anomaly
mod Samples
