-- ===== src/RuntimeGate/Snapshot.antt =====
-- check_carla_runtime.py: `_integer`, `validate_snapshot`, `_packet_frame` and the ticks of the loop
-- of `run_gate` in its mode "rpc".
use my_ad.Prelude.{
  ℕ, suc, Bool, not, ◌&&◌, Option, none, some, List, [], ◌∷◌, Result, ok, err, ◌>>=◌, ◌>>◌, require,
  ltb,
}
use my_ad.Prelude.Int.{ℤ, pos, negsuc}

-- Python's numbers: int and float together, with the operations that the gate applies.
pub record Clock (N : Type 0) : Type 0 where
  -- `type(value) in (int, float) and math.isfinite(value)`
  pub is_finite : N → Bool
  pub zero : N
  pub step_seconds : N
  pub tolerance : N
  pub sub : N → N → N
  pub abs : N → N
  pub lt : N → N → Bool
  pub le : N → N → Bool

pub data TickFault : Type 0 where
  not_integer not_finite timestamp_mismatch negative_time tick_mismatch not_consecutive : TickFault
  not_increasing wrong_step sensor_mismatch sensor_late : TickFault

-- A frame number: an `int`, or something else.
abbrev pub Number : Type 0
Number = Option ℤ

-- `_integer(value, name)`, with the minimum 0
unfoldable pub integer : Number → Result TickFault ℕ
integer none = err not_integer
integer (some (pos n)) = ok n
integer (some (negsuc n)) = err not_integer

-- Two natural numbers are equal.
abbrev pub same : ℕ → ℕ → Bool
same m n = not (ltb m n) && not (ltb n m)

module _ {N : Type 0} (clock : Clock N) where
  -- `world.get_snapshot()`
  pub record Snapshot : Type 0 where
    pub frame : Number
    pub stamp_frame : Number
    pub elapsed_seconds : N
    pub delta_seconds : N

  -- The dict that `validate_snapshot` returns.
  pub record World : Type 0 where
    pub frame : ℕ
    pub elapsed_seconds : N
    pub delta_seconds : N

  -- `_finite`
  abbrev pub finite : N → Result TickFault N
  finite value = require (clock.is_finite value) not_finite >> ok value

  abbrev near : N → N → Bool
  near a b = clock.le (clock.abs (clock.sub a b)) clock.tolerance

  abbrev pub check_tick : Option Number → ℕ → Result TickFault (Unit {0})
  check_tick none frame = ok tt
  check_tick (some tick_frame) frame =
      integer tick_frame >>= λ n. require (same n frame) tick_mismatch

  abbrev pub check_previous : Option World → ℕ → N → N → Result TickFault (Unit {0})
  check_previous none frame elapsed delta = ok tt
  check_previous (some previous) frame elapsed delta =
      require (same frame (suc previous.frame)) not_consecutive
      >> (require (clock.lt previous.elapsed_seconds elapsed) not_increasing
          >> require
              (near (clock.sub elapsed previous.elapsed_seconds) clock.step_seconds
                && near delta clock.step_seconds)
              wrong_step)

  -- `validate_snapshot`
  unfoldable pub validate_snapshot :
      Snapshot → Option World → Option Number → Result TickFault World
  validate_snapshot snapshot previous tick_frame = do
    frame ← integer snapshot.frame
    stamp_frame ← integer snapshot.stamp_frame
    require (same stamp_frame frame) timestamp_mismatch
    elapsed ← finite snapshot.elapsed_seconds
    delta ← finite snapshot.delta_seconds
    require (clock.le clock.zero elapsed && clock.le clock.zero delta) negative_time
    check_tick tick_frame frame
    check_previous previous frame elapsed delta
    ok (record { frame = frame; elapsed_seconds = elapsed; delta_seconds = delta })

  -- `_packet_frame`
  unfoldable pub packet_frame : Number → N → World → Result TickFault (Unit {0})
  packet_frame frame timestamp world = do
    n ← integer frame
    require (same n world.frame) sensor_mismatch
    stamp ← finite timestamp
    require (near stamp world.elapsed_seconds) sensor_late

  -- One turn of the loop: what `world.tick` returned, which may be nothing, and the snapshot after it.
  pub record Tick : Type 0 where
    pub frame : Option Number
    pub snapshot : Snapshot

  -- The loop over `range(warmup + ticks)`, in a mode without sensors: the validated snapshots.
  unfoldable pub tick_loop : World → List Tick → Result TickFault (List World)
  tick_loop previous [] = ok []
  tick_loop previous (tick ∷ ticks) =
      validate_snapshot tick.snapshot (some previous) tick.frame >>= λ current.
      tick_loop current ticks >>= λ rest. ok (current ∷ rest)
