-- ===== src/RuntimeGate/TickOrder.antt =====
-- check_carla_runtime.py, the tick loop of `run_gate`: the frames of its worlds.
use my_ad.Prelude.{
  ℕ, suc, ◌≡◌, refl, ap, ◌∙◌, true, ◌&&◌, some, List, [], ◌∷◌, ok, >>=-eq-ok, arith, length,
  require-eq-ok, subst, sym,
}
use my_ad.Prelude.{require-then, ok_injective}
use my_ad.RuntimeGate.Snapshot.{
  Clock, Number, tick_mismatch, not_consecutive, not_increasing, negative_time, timestamp_mismatch,
  integer, same, World, finite, check_tick, check_previous, validate_snapshot, Tick, tick_loop,
}

same_eq : (m n : ℕ) → same m n ≡ true → m ≡ n
same_eq m n h = ground arith

module _ {N : Type 0} (clock : Clock N) where
  -- The world after a tick is the next one of the world before it.
  pub record IsNext (previous : World clock) (tick : Tick clock) (current : World clock)
      : Type 0 where
    pub consecutive : current.frame ≡ suc previous.frame
    pub ticked : (number : Number) → tick.frame ≡ some number → integer number ≡ ok current.frame
    pub stamped : integer tick.snapshot.stamp_frame ≡ ok current.frame
    pub later : clock.lt previous.elapsed_seconds current.elapsed_seconds ≡ true

  -- Every tick leads from one world to the next one.
  abbrev pub Follow : World clock → List (Tick clock) → List (World clock) → Type 0
  Follow previous [] [] = Unit
  Follow previous [] (_ ∷ _) = ⊥
  Follow previous (_ ∷ _) [] = ⊥
  Follow previous (tick ∷ ticks) (current ∷ worlds) =
      IsNext previous tick current × Follow current ticks worlds

  check_tick_sound :
      (number : Number) (frame : ℕ)
      → check_tick clock (some number) frame ≡ ok tt
      → integer number ≡ ok frame
  check_tick_sound number frame h =
      let (n, ticked, e) = >>=-eq-ok (integer number) _ h in
      ticked ∙ ap ok (same_eq n frame (require-eq-ok _ tick_mismatch e))

  -- What the tests establish, for a world that is returned.
  IsNext-of :
      (previous : World clock) (tick : Tick clock) (current : World clock) (stamp : ℕ)
      → check_tick clock tick.frame current.frame ≡ ok tt
      → integer tick.snapshot.stamp_frame ≡ ok stamp
      → same stamp current.frame ≡ true
      → check_previous clock
          (some previous)
          current.frame
          current.elapsed_seconds
          current.delta_seconds
        ≡ ok tt
      → IsNext previous tick current
  IsNext-of previous tick current stamp t s m p =
      let (c, p1) =
        (require-then (same current.frame (suc previous.frame)) not_consecutive _).0 p in
      let (l, _) =
        (require-then (clock.lt previous.elapsed_seconds current.elapsed_seconds) not_increasing
            _).0
          p1 in
      record {
        consecutive = same_eq current.frame (suc previous.frame) c;
        ticked = λ number e.
            check_tick_sound number current.frame
              (ap (λ f. check_tick clock f current.frame) (sym e) ∙ t);
        stamped = s ∙ ap ok (same_eq stamp current.frame m);
        later = l;
      }

  validate_snapshot-IsNext :
      (previous : World clock) (tick : Tick clock) {current : World clock}
      → validate_snapshot clock tick.snapshot (some previous) tick.frame ≡ ok current
      → IsNext previous tick current
  unfolding validate_snapshot
  validate_snapshot-IsNext previous tick h =
      let (frame, a, h1) = >>=-eq-ok (integer tick.snapshot.frame) _ h in
      let (stamp, b, h2) = >>=-eq-ok (integer tick.snapshot.stamp_frame) _ h1 in
      let (c, h3) = (require-then (same stamp frame) timestamp_mismatch _).0 h2 in
      let (elapsed, d, h4) = >>=-eq-ok (finite clock tick.snapshot.elapsed_seconds) _ h3 in
      let (delta, e, h5) = >>=-eq-ok (finite clock tick.snapshot.delta_seconds) _ h4 in
      let (f, h6) =
        (require-then (clock.le clock.zero elapsed && clock.le clock.zero delta) negative_time _).0
          h5 in
      let (_, g, h7) = >>=-eq-ok (check_tick clock tick.frame frame) _ h6 in
      let (_, i, h8) = >>=-eq-ok (check_previous clock (some previous) frame elapsed delta) _ h7 in
      subst (IsNext previous tick) (ok_injective h8) (
        IsNext-of previous tick
          (record { frame = frame; elapsed_seconds = elapsed; delta_seconds = delta }) stamp g b c
          i)

  tick_loop-Follow :
      (previous : World clock) (ticks : List (Tick clock)) (worlds : List (World clock))
      → tick_loop clock previous ticks ≡ ok worlds
      → Follow previous ticks worlds
  unfolding tick_loop
  tick_loop-Follow previous [] [] h = tt
  tick_loop-Follow previous [] (w ∷ worlds) h = cc
  tick_loop-Follow previous (tick ∷ ticks) worlds h =
      let (current, a, h1) =
        >>=-eq-ok (validate_snapshot clock tick.snapshot (some previous) tick.frame) _ h in
      let (rest, b, h2) = >>=-eq-ok (tick_loop clock current ticks) _ h1 in
      subst (Follow previous (tick ∷ ticks)) (ok_injective h2)
        (validate_snapshot-IsNext previous tick a, tick_loop-Follow current ticks rest b)

  -- The frames from `first` on, one for each world.
  abbrev pub AreFrames : ℕ → List (World clock) → Type 0
  AreFrames first [] = Unit
  AreFrames first (world ∷ worlds) = (world.frame ≡ first) × AreFrames (suc first) worlds

  frames_of :
      (previous : World clock) (ticks : List (Tick clock)) (worlds : List (World clock))
      → Follow previous ticks worlds
      → (length worlds ≡ length ticks) × AreFrames (suc previous.frame) worlds
  frames_of previous [] [] f = (refl, tt)
  frames_of previous [] (w ∷ worlds) f = elim f [ ]
  frames_of previous (tick ∷ ticks) [] f = elim f [ ]
  frames_of previous (tick ∷ ticks) (current ∷ worlds) f =
      let (n, frames) = frames_of current ticks worlds f.1 in
      (
        ap suc n,
        (f.0.consecutive, subst (λ (k : ℕ). AreFrames (suc k) worlds) f.0.consecutive frames),
      )

  -- When the loop passes, it has one validated world for each tick; their frames follow the first
  -- world's with none missing, each is the frame that its time stamp carries and that its tick
  -- returned, where it returned one, and the world's time increases from each to the next.
  pub tick_loop_consecutive :
      (previous : World clock) (ticks : List (Tick clock)) (worlds : List (World clock))
      → tick_loop clock previous ticks ≡ ok worlds
      → (length worlds ≡ length ticks)
        × AreFrames (suc previous.frame) worlds
        × Follow previous ticks worlds
  tick_loop_consecutive previous ticks worlds h =
      let f = tick_loop-Follow previous ticks worlds h in
      let (n, frames) = frames_of previous ticks worlds f in (n, frames, f)
