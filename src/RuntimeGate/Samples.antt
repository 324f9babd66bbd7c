-- ===== src/RuntimeGate/Samples.antt =====
-- `AlignedQueue` at concrete schedules.
use my_ad.Prelude.{
  ℕ, zero, suc, ◌++◌, ◌≡◌, refl, true, false, none, some, List, [], ◌∷◌, ok, err, arith,
}
use my_ad.Prelude.Int.{pos}
use my_ad.RuntimeGate.Queue.{
  overflow_receiving, Packet, AlignedQueue, empty, receive, receive_all, Turn, wait, frame,
}
use my_ad.RuntimeGate.QueueLaws.{IsSound, frame-IsSound}
use my_ad.RuntimeGate.QueueOverflow.{frame-overflow}
use my_ad.RuntimeGate.QueueProgress.{Delivers, reached, passed, wait-Delivers}
use my_ad.RuntimeGate.QueueOrder.{arrivals_of, IsAligned, wait-IsAligned}
use my_ad.Prelude.{ltb, leb, ◌-◌, ◌↔◌, is_space, is_blank, str_eq}
use my_ad.Json.{int, str, obj, Fields, end, field, get, is_text, is_int}
use my_ad.RuntimeGate.Snapshot.{Clock, integer, World, validate_snapshot, Tick, tick_loop}
use my_ad.RuntimeGate.TickOrder.{AreFrames, Follow, tick_loop_consecutive}
use my_ad.RuntimeGate.Payload.{ImageMetrics, validate_image, read_provenance}
use my_ad.RuntimeGate.PayloadLaws.{IsImage, validate_image_iff}
use my_ad.RuntimeGate.ProvenanceLaws.{IsLocated, read_provenance_sound}

abbrev pub at_frame : ℕ → Packet
at_frame n = record { frame = pos n; payload = n }

-- Two past frames, then the expected one, and a later one just after it was taken.
abbrev schedule : List Turn
schedule =
    record { late = false; arrivals = at_frame 3 ∷ []; between = at_frame 4 ∷ [] }
    ∷ record { late = false; arrivals = []; between = [] }
    ∷ record { late = false; arrivals = at_frame 5 ∷ []; between = at_frame 6 ∷ [] }
    ∷ []

abbrev waited : AlignedQueue
waited = record {
  queue = at_frame 6 ∷ [];
  overflow = false;
  failure = none;
  closed = false;
  stale = 2;
}

aligned : wait empty (pos 5) schedule ≡ (waited, ok (at_frame 5))
unfolding wait receive_all receive
aligned = refl

wait-IsAligned_example :
    (n : ℕ) × IsAligned empty (pos 5) (arrivals_of n schedule) waited (at_frame 5)
wait-IsAligned_example =
    wait-IsAligned empty (pos 5) schedule waited (at_frame 5)
      (record { healthy = refl; fits = refl; opened = refl }) aligned

empty-IsSound : IsSound empty
empty-IsSound = record { bounded = omega arith; recorded = λ h. cc }

frame-IsSound_example : IsSound (frame (receive_all empty (at_frame 4 ∷ [])) (pos 5) schedule).0
frame-IsSound_example = frame-IsSound empty (pos 5) (at_frame 4 ∷ []) schedule empty-IsSound

abbrev packets : ℕ → List Packet
packets zero = []
packets (suc n) = at_frame 4 ∷ packets n

abbrev overflowed_with : Packet → AlignedQueue
overflowed_with packet = record {
  queue = packets 32;
  overflow = true;
  failure = some (overflow_receiving packet.frame);
  closed = false;
  stale = 0;
}

-- Thirty-two packets that fill the queue, and one more.
frame-overflow_example :
    frame (receive_all empty (packets 32 ++ at_frame 9 ∷ at_frame 4 ∷ [])) (pos 4) schedule
    ≡ (overflowed_with (at_frame 9), err (overflow_receiving (pos 9)))
frame-overflow_example =
    frame-overflow empty (packets 32) (at_frame 9) (at_frame 4 ∷ []) (pos 4) schedule
      (record { healthy = refl; fits = refl; opened = refl }) refl

-- Time in units of 0.05 s.
abbrev pub clock : Clock ℕ
clock = record {
  is_finite = λ n. true;
  zero = 0;
  step_seconds = 1;
  tolerance = 0;
  sub = λ a b. a - b;
  abs = λ a. a;
  lt = ltb;
  le = leb;
}

abbrev pub world_at : ℕ → World clock
world_at n = record { frame = n; elapsed_seconds = n; delta_seconds = 1 }

abbrev pub tick_at : ℕ → Tick clock
tick_at n = record {
  frame = some (some (pos n));
  snapshot = record {
    frame = some (pos n);
    stamp_frame = some (pos n);
    elapsed_seconds = n;
    delta_seconds = 1;
  };
}

ticked :
    tick_loop clock (world_at 7) (tick_at 8 ∷ tick_at 9 ∷ []) ≡ ok (world_at 8 ∷ world_at 9 ∷ [])
unfolding tick_loop validate_snapshot integer
ticked = refl

tick_loop_consecutive_example :
    (◌≡◌ {A = ℕ} 2 2)
    × AreFrames clock 8 (world_at 8 ∷ world_at 9 ∷ [])
    × Follow clock (world_at 7) (tick_at 8 ∷ tick_at 9 ∷ []) (world_at 8 ∷ world_at 9 ∷ [])
tick_loop_consecutive_example =
    tick_loop_consecutive clock (world_at 7) (tick_at 8 ∷ tick_at 9 ∷ [])
      (world_at 8 ∷ world_at 9 ∷ []) ticked

validate_image_iff_example :
    ((m : ImageMetrics) × (validate_image (1 ∷ 2 ∷ 3 ∷ 4 ∷ []) 320 240 ≡ ok m))
    ↔ IsImage (1 ∷ 2 ∷ 3 ∷ 4 ∷ []) 320 240
validate_image_iff_example = validate_image_iff (1 ∷ 2 ∷ 3 ∷ 4 ∷ []) 320 240

abbrev source : Fields
source = field "location" (str "/src") (field "revision" (str "a1") end)

abbrev two_sources : Fields
two_sources = field "carla" (obj source) (field "ue" (obj source) end)

abbrev provenance : Fields
provenance = field "schema_version" (int (pos 1)) (field "sources" (obj two_sources) end)

provenance_read : read_provenance (obj provenance) ≡ ok two_sources
unfolding read_provenance is_int is_text str_eq is_blank is_space
provenance_read = refl

read_provenance_sound_example :
    (is_int 1 (get "schema_version" provenance) ≡ true)
    × ((sources : Fields) × (carla : Fields) × (ue : Fields) × (get "sources" provenance
          ≡ obj sources)
        × IsLocated sources "carla" carla
        × IsLocated sources "ue" ue
        × (two_sources ≡ field "carla" (obj carla) (field "ue" (obj ue) end)))
read_provenance_sound_example = read_provenance_sound provenance two_sources provenance_read

schedule-Delivers : Delivers (pos 5) (at_frame 5) [] schedule
schedule-Delivers = passed _ _ (at_frame 3) [] refl (omega arith) refl (omega arith) refl refl (
    passed _ _ (at_frame 4) [] refl (omega arith) refl (omega arith) refl refl
      (reached _ _ [] refl (omega arith) refl (omega arith)))

wait-Delivers_example : (q' : AlignedQueue) × (wait empty (pos 5) schedule ≡ (q', ok (at_frame 5)))
wait-Delivers_example =
    wait-Delivers (pos 5) (at_frame 5) [] schedule refl refl schedule-Delivers empty
      (record { healthy = refl; fits = refl; opened = refl }) refl
