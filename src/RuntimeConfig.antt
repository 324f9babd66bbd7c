-- ===== src/RuntimeConfig.antt =====
-- scripts/carla/normalize-runtime-config.py: the replacement of one asset reference in the staged
-- runtime configuration. `Reference` is the script; `ReferenceLaws` proves.
pub mod Reference
pub mod ReferenceLaws
mod Samples
