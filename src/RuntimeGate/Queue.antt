-- ===== src/RuntimeGate/Queue.antt =====
-- check_carla_runtime.py, class `AlignedQueue`. The callback thread and the waiting thread meet in
-- a schedule: each turn of the waiting loop says whether the deadline has passed and which packets
-- the callback delivers before the turn's `get` returns and between it and the overflow test that
-- follows. A frame that is not an integer is refused by `_integer` with the message that a negative
-- one gets, and the negative integers stand for it here.
use my_ad.Prelude.{
  ℕ, ◌+◌, Bool, true, false, Option, none, some, List, [], ◌∷◌, ◌++◌, Result, ok, err, length, ltb,
  if◌then◌else◌,
}
use my_ad.Prelude.Int.{ℤ, pos, ltb_ℤ}

abbrev pub queue_size : ℕ
queue_size = 32

pub data QueueFault : Type 0 where
  overflow_before_enqueue : QueueFault
  overflow_receiving : ℤ → QueueFault
  overflowed : QueueFault
  timeout : QueueFault
  frame_not_integer : QueueFault
  misaligned : QueueFault

-- What a sensor delivers: the frame, and a payload that the queue does not read.
pub record Packet : Type 0 where
  pub frame : ℤ
  pub payload : ℕ

pub record AlignedQueue : Type 0 where
  pub queue : List Packet
  pub overflow : Bool
  pub failure : Option QueueFault
  pub closed : Bool
  pub stale : ℕ

abbrev pub empty : AlignedQueue
empty = record { queue = []; overflow = false; failure = none; closed = false; stale = 0 }

abbrev put_nowait : AlignedQueue → Packet → AlignedQueue
put_nowait q packet =
    if ltb (length q.queue) queue_size
    then record q { queue = q.queue ++ packet ∷ [] }
    else record q { overflow = true; failure = some (overflow_receiving packet.frame) }

abbrev receive_healthy : AlignedQueue → Packet → AlignedQueue
receive_healthy q packet =
    if q.overflow
    then record q { failure = some overflow_before_enqueue }
    else (if q.closed then q else put_nowait q packet)

-- `__call__`: the callback. The first failure is sticky.
unfoldable pub receive : AlignedQueue → Packet → AlignedQueue
receive q packet = elim q.failure [ none ↦ receive_healthy q packet | some e ↦ q ]

unfoldable pub receive_all : AlignedQueue → List Packet → AlignedQueue
receive_all q [] = q
receive_all q (packet ∷ packets) = receive_all (receive q packet) packets

-- `_check_failure`
unfoldable pub check_failure : AlignedQueue → Option QueueFault
check_failure q = elim q.failure [
  | none ↦ if q.overflow then some overflowed else none
  | some e ↦ some e
]

-- One turn of the waiting loop.
pub record Turn : Type 0 where
  -- `remaining <= 0`
  pub late : Bool
  -- before `get` returns
  pub arrivals : List Packet
  -- after it and before the next test of `overflow`
  pub between : List Packet

abbrev pub Frame : Type 0
Frame = AlignedQueue × Result QueueFault Packet

-- What follows `get`: the frame is checked, a past frame is counted and the loop goes on, and only
-- the expected one is returned.
abbrev pub inspect : AlignedQueue → ℤ → Packet → (AlignedQueue → Frame) → Frame
inspect q expected packet again =
    if ltb_ℤ packet.frame (pos 0)
    then (q, err frame_not_integer)
    else (if ltb_ℤ packet.frame expected
        then again (record q { stale = q.stale + 1 })
        else (if ltb_ℤ expected packet.frame
            then (q, err misaligned)
            else (if q.overflow then (q, err overflowed) else (q, ok packet))))

-- `self.queue.get(timeout=remaining)`, and what the callback delivers between it and the next test
-- of `overflow`
abbrev pub take_next : AlignedQueue → ℤ → List Packet → List Packet → (AlignedQueue → Frame) → Frame
take_next q expected [] between again = (q, err timeout)
take_next q expected (packet ∷ rest) between again =
    inspect (receive_all (record q { queue = rest }) between) expected packet again

-- The loop of `frame`. A schedule that ends is a deadline that has passed.
unfoldable pub wait : AlignedQueue → ℤ → List Turn → Frame
wait q expected [] = if q.overflow then (q, err overflowed) else (q, err timeout)
wait q expected (turn ∷ turns) =
    if q.overflow
    then (q, err overflowed)
    else (if turn.late
        then (q, err timeout)
        else (let filled = receive_all q turn.arrivals in
            take_next filled expected filled.queue turn.between (λ r. wait r expected turns)))

-- `frame`
unfoldable pub frame : AlignedQueue → ℤ → List Turn → Frame
frame q expected turns = elim (check_failure q) [
  | some e ↦ (q, err e)
  | none ↦ wait q expected turns
]
