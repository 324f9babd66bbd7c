-- ===== src/RuntimeGate.antt =====
-- scripts/carla/check_carla_runtime.py: the endpoint gates. `Queue` is the sensor queue that the
-- callback thread fills; the other modules prove its discipline.
pub mod Queue
pub mod Snapshot
pub mod Payload
pub mod ProvenanceLaws
pub mod PayloadLaws
pub mod TickOrder
pub mod Sensors
pub mod SensorLaws
pub mod QueueLaws
pub mod QueueReceive
pub mod QueueOrder
pub mod QueueProgress
pub mod QueueOverflow
mod Samples
mod SensorSamples
