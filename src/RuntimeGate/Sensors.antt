-- ===== src/RuntimeGate/Sensors.antt =====
-- check_carla_runtime.py: `validate_lidar`, and the turns of the loop of `run_gate` in its mode
-- "sensors": the warm-up, the aligned packets of both sensors and their payloads.
use my_ad.Prelude.{
  ℕ, zero, suc, ◌%◌, ◌&&◌, none, some, List, [], ◌∷◌, Result, ok, err, ◌>>=◌, ◌>>◌, require, ltb,
  ◌==◌, length,
}
use my_ad.Prelude.Int.{pos}
use my_ad.StageReport.Host.{Bytes}
use my_ad.RuntimeGate.Queue.{
  QueueFault, Packet, AlignedQueue, receive_all, check_failure, Turn, frame,
}
use my_ad.RuntimeGate.Snapshot.{Clock, TickFault, World, validate_snapshot, packet_frame, Tick}
use my_ad.RuntimeGate.Payload.{PayloadFault, ImageMetrics, payload, validate_image}

pub data SensorFault : Type 0 where
  in_tick : TickFault → SensorFault
  in_queue : QueueFault → SensorFault
  in_payload : PayloadFault → SensorFault
  partial_points not_finite only_zero : SensorFault

-- What the gate asks of a packet's payload, and of floating point for the points.
pub record Device (N : Type 0) : Type 0 where
  -- `packet.timestamp`, `bytes(packet.raw_data)`, `packet.width` and `packet.height`
  pub stamp : ℕ → N
  pub raw : ℕ → Bytes
  pub wide : ℕ → ℕ
  pub high : ℕ → ℕ
  -- `struct.iter_unpack("<ffff", data)`
  pub points : Bytes → List (N × N × N × N)
  pub add : N → N → N
  pub mul : N → N → N
  -- `max`, and `1e-12`
  pub greater : N → N → N
  pub tiny : N

abbrev pub raised : {A E : Type 0} → (E → SensorFault) → Result E A → Result SensorFault A
raised wrap (ok a) = ok a
raised wrap (err e) = err (wrap e)

-- `check_failure` of a stream, as the loop calls it
abbrev pub healthy : AlignedQueue → Result SensorFault (Unit {0})
healthy q = elim (check_failure q) [ none ↦ ok tt | some e ↦ err (in_queue e) ]

pub record Streams : Type 0 where
  pub camera : AlignedQueue
  pub lidar : AlignedQueue

module _ {N : Type 0} (clock : Clock N) (device : Device N) where
  -- the loop of `validate_lidar`
  unfoldable pub max_radius_squared : N → List (N × N × N × N) → Result SensorFault N
  max_radius_squared greatest [] = ok greatest
  max_radius_squared greatest ((x, y, z, intensity) ∷ points) =
      require
        (clock.is_finite x
          && (clock.is_finite y && (clock.is_finite z && clock.is_finite intensity)))
        not_finite
      >> max_radius_squared
          (device.greater greatest
            (device.add (device.add (device.mul x x) (device.mul y y)) (device.mul z z)))
          points

  -- `validate_lidar`: its number of bytes
  unfoldable pub validate_lidar : Bytes → Result SensorFault ℕ
  validate_lidar data_ = do
    require (ltb 0 (length data_) && length data_ % 16 == 0) partial_points
    greatest ← max_radius_squared clock.zero (device.points data_)
    require (clock.lt device.tiny greatest) only_zero
    ok (length data_)

  -- One turn of the loop: what `world.tick` and the snapshot gave, and what the callbacks delivered:
  -- before the turn, to the LiDAR while the camera is waited for, and during each wait.
  pub record SensorTurn : Type 0 where
    pub tick : Tick clock
    pub camera_before : List Packet
    pub lidar_before : List Packet
    pub camera_turns : List Turn
    pub lidar_meanwhile : List Packet
    pub lidar_turns : List Turn

  pub record Sample : Type 0 where
    pub world : World clock
    pub camera : Packet
    pub lidar : Packet
    pub image : ImageMetrics

  -- The packets and payloads of a measured tick. The frame that is waited for is the one of the
  -- snapshot, which the tick has returned.
  unfoldable pub measure :
      Streams → World clock → SensorTurn → Result SensorFault (Streams × Sample)
  measure streams current turn = do
    let (camera_after, camera_got) = frame streams.camera (pos current.frame) turn.camera_turns
    let (lidar_after, lidar_got) =
        frame (receive_all streams.lidar turn.lidar_meanwhile) (pos current.frame) turn.lidar_turns
    camera ← raised in_queue camera_got
    lidar ← raised in_queue lidar_got
    raised in_tick (packet_frame clock (some camera.frame) (device.stamp camera.payload) current)
    raised in_tick (packet_frame clock (some lidar.frame) (device.stamp lidar.payload) current)
    camera_data ← raised in_payload (payload (device.raw camera.payload))
    lidar_data ← raised in_payload (payload (device.raw lidar.payload))
    image ←
        raised in_payload
          (validate_image camera_data (device.wide camera.payload) (device.high camera.payload))
    lidar_bytes ← validate_lidar lidar_data
    ok (
      record { camera = camera_after; lidar = lidar_after },
      record { world = current; camera = camera; lidar = lidar; image = image },
    )

  abbrev pub deliver : Streams → SensorTurn → Streams
  deliver streams turn = record {
    camera = receive_all streams.camera turn.camera_before;
    lidar = receive_all streams.lidar turn.lidar_before;
  }

  -- the part of a turn that the warm-up has too: the streams and the tick
  unfoldable pub advance : Streams → World clock → SensorTurn → Result SensorFault (World clock)
  advance streams previous turn = do
    healthy streams.camera
    healthy streams.lidar
    raised in_tick (validate_snapshot clock turn.tick.snapshot (some previous) turn.tick.frame)

  -- The loop over `range(warmup + ticks)`: the samples of the measured ticks.
  unfoldable pub sensor_loop :
      ℕ → Streams → World clock → List SensorTurn → Result SensorFault (List Sample)
  sensor_loop warmup streams previous [] = ok []
  sensor_loop (suc warmup) streams previous (turn ∷ turns) =
      advance (deliver streams turn) previous turn >>= λ current.
      sensor_loop warmup (deliver streams turn) current turns
  sensor_loop zero streams previous (turn ∷ turns) =
      advance (deliver streams turn) previous turn >>= λ current.
      measure (deliver streams turn) current turn >>= λ done.
      sensor_loop zero done.0 current turns >>= λ samples. ok (done.1 ∷ samples)
