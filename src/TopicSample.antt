-- ===== src/TopicSample.antt =====
-- scripts/harness/sample-topic.py: the bounded summary of an observed ROS message. `Summary` is
-- `summarize_value`; `Depth` is about its depth.
pub mod Summary
pub mod Depth
mod Samples
