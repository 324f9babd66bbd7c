-- ===== src/RuntimeGate/QueueLaws.antt =====
-- check_carla_runtime.py, `AlignedQueue`: its bound and its failures.
use my_ad.Prelude.{
  ◌+◌, ◌≤◌, ◌≡◌, ◌≢◌, refl, true, none, some, List, [], ◌∷◌, err, length, length-append, arith,
}
use my_ad.Prelude.Int.{ℤ}
use my_ad.RuntimeGate.Queue.{
  queue_size, QueueFault, Packet, AlignedQueue, receive, receive_all, check_failure, Turn, Frame,
  inspect, take_next, wait, frame,
}

-- No more packets than the queue was made for, and an overflow is always recorded as a failure.
pub record IsSound (q : AlignedQueue) : Type 0 where
  pub bounded : length q.queue ≤ queue_size
  pub recorded : q.overflow ≡ true → q.failure ≢ none

receive-IsSound : (q : AlignedQueue) (p : Packet) → IsSound q → IsSound (receive q p)
unfolding receive
receive-IsSound q p s = ground (arith, length-append q.queue (p ∷ []))

receive_all-IsSound : (q : AlignedQueue) (ps : List Packet) → IsSound q → IsSound (receive_all q ps)
unfolding receive_all
receive_all-IsSound q [] s = s
receive_all-IsSound q (p ∷ ps) s = receive_all-IsSound (receive q p) ps (receive-IsSound q p s)

inspect-IsSound :
    (q : AlignedQueue) (expected : ℤ) (p : Packet) (again : AlignedQueue → Frame)
    → IsSound q
    → ((r : AlignedQueue) → IsSound r → IsSound (again r).0)
    → IsSound (inspect q expected p again).0
inspect-IsSound q expected p again s next = ground (
  arith,
  next (record q { stale = q.stale + 1 }) (record { bounded = s.bounded; recorded = s.recorded }),
)

take_next-IsSound :
    (q : AlignedQueue) (expected : ℤ) (ps between : List Packet) (again : AlignedQueue → Frame)
    → IsSound q
    → length ps ≤ queue_size
    → ((r : AlignedQueue) → IsSound r → IsSound (again r).0)
    → IsSound (take_next q expected ps between again).0
take_next-IsSound q expected [] between again s fits next = s
take_next-IsSound q expected (p ∷ ps) between again s fits next =
    inspect-IsSound (receive_all (record q { queue = ps }) between) expected p again
      (receive_all-IsSound (record q { queue = ps }) between
        (record { bounded = omega arith; recorded = s.recorded }))
      next

wait-IsSound :
    (q : AlignedQueue) (expected : ℤ) (turns : List Turn)
    → IsSound q
    → IsSound (wait q expected turns).0
unfolding wait
wait-IsSound q expected [] s = ground arith
wait-IsSound q expected (turn ∷ turns) s =
    let filled = receive_all q turn.arrivals in
    let sound = receive_all-IsSound q turn.arrivals s in
    ground (
      arith,
      take_next-IsSound filled expected filled.queue turn.between (λ r. wait r expected turns) sound
          sound.bounded (λ r h. wait-IsSound r expected turns h),
    )

-- From a queue within its size whose overflow, if any, is recorded: whatever the callback delivers
-- before a wait and during it, the queue holds no more than its size afterwards, and an overflow is
-- recorded.
pub frame-IsSound :
    (q : AlignedQueue) (expected : ℤ) (before : List Packet) (turns : List Turn)
    → IsSound q
    → IsSound (frame (receive_all q before) expected turns).0
unfolding frame
frame-IsSound q expected before turns s = ground (
  arith,
  wait-IsSound (receive_all q before) expected turns (receive_all-IsSound q before s),
  receive_all-IsSound q before s,
)

pub receive_all_failed :
    (q : AlignedQueue) (ps : List Packet) (e : QueueFault)
    → q.failure ≡ some e
    → receive_all q ps ≡ q
unfolding receive_all receive
receive_all_failed q [] e h = refl
receive_all_failed q (p ∷ ps) e h = ground (arith, receive_all_failed q ps e h)

-- After a failure the queue takes no packet, and every wait raises that first failure.
pub failure_sticks :
    (q : AlignedQueue) (ps : List Packet) (expected : ℤ) (turns : List Turn) (e : QueueFault)
    → q.failure ≡ some e
    → (receive_all q ps ≡ q) × (frame (receive_all q ps) expected turns ≡ (q, err e))
unfolding frame check_failure
failure_sticks q ps expected turns e h =
    (receive_all_failed q ps e h, rw (receive_all_failed q ps e h, h) refl)
