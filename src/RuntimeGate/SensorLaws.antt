-- ===== src/RuntimeGate/SensorLaws.antt =====
-- check_carla_runtime.py, the tick loop in mode "sensors": its samples.
use my_ad.Prelude.{
  ℕ, zero, suc, ◌+◌, ◌-◌, ◌≡◌, sym, ap, ◌∙◌, subst, some, List, [], ◌∷◌, Result, ok, err, >>=-eq-ok,
  length, All, arith, Bool-cases, inl, inr, ltb, Option-cases,
}
use my_ad.Prelude.Int.{ℤ, pos, ltb_ℤ}
use my_ad.StageReport.Host.{Bytes}
use my_ad.Prelude.{ok_injective}
use my_ad.RuntimeGate.Queue.{
  QueueFault, Packet, AlignedQueue, receive_all, check_failure, Turn, Frame, inspect, take_next,
  wait, frame,
}
use my_ad.RuntimeGate.QueueOrder.{same_frame, wait_turn}
use my_ad.RuntimeGate.Snapshot.{Clock, World, packet_frame}
use my_ad.RuntimeGate.Payload.{max_sensor_bytes, payload, validate_image}
use my_ad.RuntimeGate.PayloadLaws.{IsImage, validate_image_iff}
use my_ad.RuntimeGate.Sensors.{
  SensorFault, in_tick, in_queue, in_payload, Device, raised, Streams, validate_lidar, SensorTurn,
  Sample, measure, deliver, advance, sensor_loop,
}

-- Whatever a wait returns has the expected frame, on any queue.
inspect_frame :
    (q : AlignedQueue) (expected : ℤ) (p : Packet) (again : AlignedQueue → Frame)
    → ((r : AlignedQueue) (packet : Packet) → (again r).1 ≡ ok packet → packet.frame ≡ expected)
    → (packet : Packet) → (inspect q expected p again).1 ≡ ok packet
    → packet.frame ≡ expected
inspect_frame q expected p again next packet h = elim (Bool-cases (ltb_ℤ p.frame (pos 0))) [
  | inl negative ↦ absurd (ground arith)
  | inr natural ↦ elim (Bool-cases (ltb_ℤ p.frame expected)) [
    | inl old ↦ next (record q { stale = q.stale + 1 }) packet (rw (natural, old) at h)
    | inr current ↦ elim (Bool-cases (ltb_ℤ expected p.frame)) [
      | inl future ↦ absurd (ground arith)
      | inr reached ↦ elim (Bool-cases q.overflow) [
        | inl over ↦ absurd (ground arith)
        | inr room ↦
            ap (λ (x : Packet). x.frame)
              (sym (ok_injective (rw (natural, current, reached, room) at h)))
            ∙ same_frame p.frame expected current reached
      ]
    ]
  ]
]

take_next_frame :
    (q : AlignedQueue) (expected : ℤ) (ps between : List Packet) (again : AlignedQueue → Frame)
    → ((r : AlignedQueue) (packet : Packet) → (again r).1 ≡ ok packet → packet.frame ≡ expected)
    → (packet : Packet) → (take_next q expected ps between again).1 ≡ ok packet
    → packet.frame ≡ expected
take_next_frame q expected [] between again next packet h = cc
take_next_frame q expected (p ∷ ps) between again next packet h =
    inspect_frame (receive_all (record q { queue = ps }) between) expected p again next packet h

wait_frame :
    (q : AlignedQueue) (expected : ℤ) (turns : List Turn) (packet : Packet)
    → (wait q expected turns).1 ≡ ok packet
    → packet.frame ≡ expected
unfolding wait
wait_frame q expected [] packet h = absurd (ground arith)
wait_frame q expected (turn ∷ turns) packet h = elim (Bool-cases q.overflow) [
  | inl over ↦ absurd (ground arith)
  | inr room ↦ elim (Bool-cases turn.late) [
    | inl late ↦ absurd (ground arith)
    | inr early ↦
        let filled = receive_all q turn.arrivals in
        take_next_frame filled expected filled.queue turn.between (λ r. wait r expected turns)
          (λ r p. wait_frame r expected turns p) packet
          (ap (λ (f : Frame). f.1) (sym (wait_turn q expected turn turns room early)) ∙ h)
  ]
]

frame_matches :
    (q : AlignedQueue) (expected : ℤ) (turns : List Turn) (packet : Packet)
    → (frame q expected turns).1 ≡ ok packet
    → packet.frame ≡ expected
unfolding frame
frame_matches q expected turns packet h = elim (Option-cases (check_failure q)) [
  | inl e ↦ wait_frame q expected turns packet (rw (e, frame) at h)
  | inr (f, e) ↦ absurd (no_packet (rw (e, frame) at h))
]
  where
    no_packet : {f : QueueFault} → ◌≡◌ {A = Result QueueFault Packet} (err f) (ok packet) → ⊥
    no_packet k = cc

raised_ok :
    {A E : Type 0} (wrap : E → SensorFault) (r : Result E A) {a : A}
    → raised wrap r ≡ ok a
    → r ≡ ok a
raised_ok wrap (ok a) h = ap ok (ok_injective h)
raised_ok wrap (err e) h = cc

payload_same : (raw data_ : Bytes) → payload raw ≡ ok data_ → raw ≡ data_
unfolding payload
payload_same raw data_ h = elim (Bool-cases (ltb max_sensor_bytes (length raw))) [
  | inl large ↦ cc (rw large at h)
  | inr fits ↦ ok_injective (rw fits at h)
]

module _ {N : Type 0} (clock : Clock N) (device : Device N) where
  -- Both packets are of the world's frame, and the camera's is an image.
  pub record IsSample (s : Sample clock device) : Type 0 where
    pub camera_frame : s.camera.frame ≡ pos s.world.frame
    pub lidar_frame : s.lidar.frame ≡ pos s.world.frame
    pub picture :
        IsImage
          (device.raw s.camera.payload)
          (device.wide s.camera.payload)
          (device.high s.camera.payload)

  measure_sound :
      (streams : Streams) (current : World clock) (turn : SensorTurn clock device)
      {done : Streams × Sample clock device}
      → measure clock device streams current turn ≡ ok done
      → IsSample done.1
  unfolding measure
  measure_sound streams current turn h =
      let camera_wait = frame streams.camera (pos current.frame) turn.camera_turns in
      let lidar_wait =
        frame (receive_all streams.lidar turn.lidar_meanwhile) (pos current.frame)
          turn.lidar_turns in
      let (camera, a, h1) = >>=-eq-ok (raised in_queue camera_wait.1) _ h in
      let (lidar, b, h2) = >>=-eq-ok (raised in_queue lidar_wait.1) _ h1 in
      let (_, c, h3) =
        >>=-eq-ok
          (raised in_tick
            (packet_frame clock (some camera.frame) (device.stamp camera.payload) current))
          _ h2 in
      let (_, d, h4) =
        >>=-eq-ok
          (raised in_tick
            (packet_frame clock (some lidar.frame) (device.stamp lidar.payload) current))
          _ h3 in
      let (camera_data, e, h5) =
        >>=-eq-ok (raised in_payload (payload (device.raw camera.payload))) _ h4 in
      let (lidar_data, f, h6) =
        >>=-eq-ok (raised in_payload (payload (device.raw lidar.payload))) _ h5 in
      let (image, g, h7) =
        >>=-eq-ok
          (raised in_payload
            (validate_image camera_data (device.wide camera.payload) (device.high camera.payload)))
          _ h6 in
      let (_, i, h8) = >>=-eq-ok (validate_lidar clock device lidar_data) _ h7 in
      subst (λ (r : Streams × Sample clock device). IsSample r.1) (ok_injective h8)
        (record {
          camera_frame =
              frame_matches streams.camera (pos current.frame) turn.camera_turns camera
                (raised_ok in_queue camera_wait.1 a);
          lidar_frame =
              frame_matches (receive_all streams.lidar turn.lidar_meanwhile) (pos current.frame)
                turn.lidar_turns lidar (raised_ok in_queue lidar_wait.1 b);
          picture =
              subst
                (λ (x : Bytes). IsImage x (device.wide camera.payload) (device.high camera.payload))
                (sym (
                  payload_same (device.raw camera.payload) camera_data
                    (raised_ok in_payload (payload (device.raw camera.payload)) e)))
                ((validate_image_iff camera_data (device.wide camera.payload)
                    (device.high camera.payload)).0
                  (image, raised_ok in_payload _ g));
        })

  -- When the loop passes, there is a sample for each turn behind the warm-up; in each, the packets
  -- of both sensors are of the frame of the world, and the camera's payload is an image of the
  -- requested size that is not constant.
  pub sensor_loop-IsSample :
      (warmup : ℕ) (streams : Streams) (previous : World clock)
      (turns : List (SensorTurn clock device)) (samples : List (Sample clock device))
      → sensor_loop clock device warmup streams previous turns ≡ ok samples
      → (length samples ≡ length turns - warmup) × All IsSample samples
  unfolding sensor_loop
  sensor_loop-IsSample zero streams previous [] samples h =
      subst (λ (l : List (Sample clock device)). (length l ≡ 0 - 0) × All IsSample l)
        (ok_injective h) (omega arith, tt)
  sensor_loop-IsSample (suc warmup) streams previous [] samples h =
      subst (λ (l : List (Sample clock device)). (length l ≡ 0 - suc warmup) × All IsSample l)
        (ok_injective h) (omega arith, tt)
  sensor_loop-IsSample (suc warmup) streams previous (turn ∷ turns) samples h =
      let (current, a, h1) =
        >>=-eq-ok (advance clock device (deliver clock device streams turn) previous turn) _ h in
      let (n, all) =
        sensor_loop-IsSample warmup (deliver clock device streams turn) current turns samples h1 in
      (omega (arith, n), all)
  sensor_loop-IsSample zero streams previous (turn ∷ turns) samples h =
      let (current, a, h1) =
        >>=-eq-ok (advance clock device (deliver clock device streams turn) previous turn) _ h in
      let (done, b, h2) =
        >>=-eq-ok (measure clock device (deliver clock device streams turn) current turn) _ h1 in
      let (rest, c, h3) = >>=-eq-ok (sensor_loop clock device 0 done.0 current turns) _ h2 in
      let (n, all) = sensor_loop-IsSample 0 done.0 current turns rest c in
      subst
        (λ (l : List (Sample clock device)). (length l ≡ suc (length turns) - 0) × All IsSample l)
        (ok_injective h3)
        (omega (arith, n), (measure_sound (deliver clock device streams turn) current turn b, all))
