-- ===== src/RuntimeGate/SensorSamples.antt =====
-- A gate with one warm-up tick and one measured tick, at which both sensors deliver.
use my_ad.Prelude.{
  ℕ, zero, suc, ◌+◌, ◌*◌, ◌-◌, ◌≡◌, refl, ap, false, List, [], ◌∷◌, ok, All, length, arith, inl,
  inr,
}
use my_ad.StageReport.Host.{Bytes}
use my_ad.RuntimeGate.Queue.{empty, receive, receive_all, check_failure, wait, frame}
use my_ad.RuntimeGate.Snapshot.{integer, validate_snapshot, packet_frame}
use my_ad.RuntimeGate.Payload.{width, height, every_fourth, payload, validate_image}
use my_ad.RuntimeGate.PayloadLaws.{HasPicture, metrics_of, image_at}
use my_ad.RuntimeGate.Sensors.{
  Device, Streams, max_radius_squared, validate_lidar, SensorTurn, Sample, measure, advance,
  sensor_loop,
}
use my_ad.RuntimeGate.SensorLaws.{IsSample, sensor_loop-IsSample}
use my_ad.RuntimeGate.Samples.{at_frame, clock, world_at, tick_at}

unfoldable black : ℕ → Bytes
black zero = []
black (suc n) = 0 ∷ black n

length-black : (n : ℕ) → length (black n) ≡ n
unfolding black
length-black zero = refl
length-black (suc n) = ap suc (length-black n)

-- One byte of the picture is not 0. The rest is a parameter, so that it is not computed.
abbrev picture : Bytes → Bytes
picture rest = 0 ∷ 0 ∷ 0 ∷ 0 ∷ 1 ∷ rest

abbrev device : Bytes → Device ℕ
device rest = record {
  stamp = λ n. n;
  raw = λ n. picture rest;
  wide = λ n. 320;
  high = λ n. 240;
  points = λ data_. (1, 0, 0, 0) ∷ [];
  add = λ a b. a + b;
  mul = λ a b. a * b;
  greater = λ a b. b;
  tiny = 0;
}

size : length (picture (black 307195)) ≡ width * height * 4
size = omega (arith, length-black 307195)

seen : (rest : Bytes) → HasPicture (picture rest)
unfolding every_fourth
seen rest = inl (record {
  low = 0;
  high = 1;
  low_in = inl refl;
  high_in = inr (inl refl);
  ordered = omega arith;
})

accepted :
    validate_image (picture (black 307195)) 320 240 ≡ ok (metrics_of (picture (black 307195)))
accepted = image_at (picture (black 307195)) size (seen (black 307195))

abbrev turns : List (SensorTurn clock (device (black 307195)))
turns =
    record {
      tick = tick_at 8;
      camera_before = at_frame 8 ∷ [];
      lidar_before = [];
      camera_turns = [];
      lidar_meanwhile = [];
      lidar_turns = [];
    }
    ∷ record {
      tick = tick_at 9;
      camera_before = at_frame 9 ∷ [];
      lidar_before = [];
      camera_turns =
          record { late = false; arrivals = []; between = [] }
          ∷ record { late = false; arrivals = []; between = [] }
          ∷ [];
      lidar_meanwhile = at_frame 9 ∷ [];
      lidar_turns = record { late = false; arrivals = []; between = [] } ∷ [];
    }
    ∷ []

abbrev streams : Streams
streams = record { camera = empty; lidar = empty }

abbrev samples : List (Sample clock (device (black 307195)))
samples =
    record {
      world = world_at 9;
      camera = at_frame 9;
      lidar = at_frame 9;
      image = metrics_of (picture (black 307195));
    }
    ∷ []

payload_of : (data_ : Bytes) → length data_ ≡ width * height * 4 → payload data_ ≡ ok data_
unfolding payload
payload_of data_ e = rw e refl

points_of :
    (rest data_ : Bytes)
    → length data_ ≡ width * height * 4
    → validate_lidar clock (device rest) data_ ≡ ok 307200
unfolding validate_lidar max_radius_squared
points_of rest data_ e = rw e refl

loaded : payload (picture (black 307195)) ≡ ok (picture (black 307195))
loaded = payload_of (picture (black 307195)) size

points_accepted : validate_lidar clock (device (black 307195)) (picture (black 307195)) ≡ ok 307200
points_accepted = points_of (black 307195) (picture (black 307195)) size

passed : sensor_loop clock (device (black 307195)) 1 streams (world_at 7) turns ≡ ok samples
unfolding sensor_loop advance measure validate_snapshot packet_frame integer frame wait receive_all
    receive check_failure
passed = rw (loaded, accepted, points_accepted) refl

sensor_loop-IsSample_example :
    (length samples ≡ length turns - 1) × All (IsSample clock (device (black 307195))) samples
sensor_loop-IsSample_example =
    sensor_loop-IsSample clock (device (black 307195)) 1 streams (world_at 7) turns samples passed
