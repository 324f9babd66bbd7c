-- ===== src/RuntimeGate/QueueProgress.antt =====
-- check_carla_runtime.py, `AlignedQueue`: a wait whose packet comes in time ends with it.
use mathlib.Core.List.{append_assoc, append-nil}
use my_ad.Prelude.{
  ◌+◌, ◌≤◌, ◌≡◌, refl, ap, ◌∙◌, sym, true, false, List, [], ◌∷◌, ◌++◌, ok, length, length-append,
  arith, lt→ltb,
}
use my_ad.Prelude.Int.{ℤ, pos, negsuc, ltb_ℤ}
use my_ad.RuntimeGate.Queue.{
  queue_size, Packet, AlignedQueue, receive_all, Turn, inspect, take_next, wait, Frame,
}
use my_ad.RuntimeGate.QueueReceive.{IsOpen, receive_room}
use my_ad.RuntimeGate.QueueOrder.{wait_turn}

-- A schedule that brings the packet: in each turn the deadline is ahead, the queue holds what arrives
-- before and after its `get`, and what the `get` takes is the packet, or a packet of a past frame,
-- after which the schedule goes on with the others.
pub data Delivers (expected : ℤ) (packet : Packet) : List Packet → List Turn → Type 0 where
  reached :
      {queue : List Packet} (turn : Turn) (turns : List Turn) (later : List Packet)
      → turn.late ≡ false
      → length queue + length turn.arrivals ≤ queue_size
      → queue ++ turn.arrivals ≡ packet ∷ later
      → length later + length turn.between ≤ queue_size
      → Delivers expected packet queue (turn ∷ turns)
  passed :
      {queue : List Packet} (turn : Turn) (turns : List Turn) (x : Packet) (rest : List Packet)
      → turn.late ≡ false
      → length queue + length turn.arrivals ≤ queue_size
      → queue ++ turn.arrivals ≡ x ∷ rest
      → length rest + length turn.between ≤ queue_size
      → ltb_ℤ x.frame (pos 0) ≡ false
      → ltb_ℤ x.frame expected ≡ true
      → Delivers expected packet (rest ++ turn.between) turns
      → Delivers expected packet queue (turn ∷ turns)

-- Packets that fit are queued in their order.
pub receive_all_fit :
    (q : AlignedQueue) (ps : List Packet)
    → IsOpen q
    → length q.queue + length ps ≤ queue_size
    → receive_all q ps ≡ record q { queue = q.queue ++ ps }
unfolding receive_all
receive_all_fit q [] o h =
    ap (λ (l : List Packet). record q { queue = l }) (sym (append-nil q.queue))
receive_all_fit q (p ∷ ps) o h =
    let longer = length-append q.queue (p ∷ []) in
    let one = receive_room q p o (lt→ltb (length q.queue) queue_size (omega (arith, h))) in
    let next : AlignedQueue = record q { queue = q.queue ++ p ∷ [] } in
    let rest =
      receive_all_fit next ps (record { healthy = o.healthy; fits = o.fits; opened = o.opened })
        (omega (arith, h, longer)) in
    ap (λ (r : AlignedQueue). receive_all r ps) one
    ∙ rest
    ∙ ap (λ (l : List Packet). record q { queue = l }) (append_assoc q.queue (p ∷ []) ps)

not_below_itself : (n : ℤ) → ltb_ℤ n n ≡ false
not_below_itself (pos n) = ground arith
not_below_itself (negsuc n) = ground arith

-- One turn of an open queue that what arrives fits in.
turn_taken :
    (q : AlignedQueue) (expected : ℤ) (turn : Turn) (turns : List Turn) (x : Packet)
    (rest : List Packet)
    → IsOpen q
    → turn.late ≡ false
    → length q.queue + length turn.arrivals ≤ queue_size
    → q.queue ++ turn.arrivals ≡ x ∷ rest
    → length rest + length turn.between ≤ queue_size
    → wait q expected (turn ∷ turns)
      ≡ inspect (record q { queue = rest ++ turn.between }) expected x (λ r. wait r expected turns)
turn_taken q expected turn turns x rest o late fit split room =
    let filled =
      receive_all_fit q turn.arrivals o fit
      ∙ ap (λ (l : List Packet). record q { queue = l }) split in
    wait_turn q expected turn turns o.fits late
    ∙ ap
        (λ (r : AlignedQueue).
          take_next r expected r.queue turn.between (λ s. wait s expected turns))
        filled
    ∙ ap (λ (r : AlignedQueue). inspect r expected x (λ s. wait s expected turns))
        (receive_all_fit (record q { queue = rest }) turn.between
          (record { healthy = o.healthy; fits = o.fits; opened = o.opened }) room)

inspect_reached :
    (q : AlignedQueue) (expected : ℤ) (packet : Packet) (again : AlignedQueue → Frame)
    → q.overflow ≡ false
    → ltb_ℤ packet.frame (pos 0) ≡ false
    → ltb_ℤ packet.frame expected ≡ false
    → ltb_ℤ expected packet.frame ≡ false
    → inspect q expected packet again ≡ (q, ok packet)
inspect_reached q expected packet again o a b c = ground (arith, o, a, b, c)

inspect_passed :
    (q : AlignedQueue) (expected : ℤ) (x : Packet) (again : AlignedQueue → Frame)
    → ltb_ℤ x.frame (pos 0) ≡ false
    → ltb_ℤ x.frame expected ≡ true
    → inspect q expected x again ≡ again (record q { stale = q.stale + 1 })
inspect_passed q expected x again a b = ground (arith, a, b)

-- On a queue that has not failed and is not closed, a wait for a frame that is not negative returns
-- the packet of that frame whenever the schedule brings it: in each turn up to the one that takes it,
-- the deadline is ahead, what arrives fits, and only packets of past frames that are not negative are
-- taken before it.
pub wait-Delivers :
    (expected : ℤ) (packet : Packet) (queue : List Packet) (turns : List Turn)
    → ltb_ℤ expected (pos 0) ≡ false
    → packet.frame ≡ expected
    → Delivers expected packet queue turns
    → (q : AlignedQueue) → IsOpen q
    → q.queue ≡ queue
    → (q' : AlignedQueue) × (wait q expected turns ≡ (q', ok packet))
wait-Delivers expected packet queue turns nat same
      (reached turn rest_turns later late fit split room) q o e =
    let measured = ap (λ (l : List Packet). length l) e in
    let start =
      turn_taken q expected turn rest_turns packet later o late (omega (arith, measured, fit))
        (ap (λ (l : List Packet). l ++ turn.arrivals) e ∙ split) room in
    let level = not_below_itself expected in
    let taken =
      inspect_reached (record q { queue = later ++ turn.between }) expected packet
        (λ r. wait r expected rest_turns) o.fits (ap (λ (f : ℤ). ltb_ℤ f (pos 0)) same ∙ nat)
        (ap (λ (f : ℤ). ltb_ℤ f expected) same ∙ level)
        (ap (λ (f : ℤ). ltb_ℤ expected f) same ∙ level) in
    (record q { queue = later ++ turn.between }, start ∙ taken)
wait-Delivers expected packet queue turns nat same
      (passed turn rest_turns x rest late fit split room natural past d) q o e =
    let measured = ap (λ (l : List Packet). length l) e in
    let start =
      turn_taken q expected turn rest_turns x rest o late (omega (arith, measured, fit))
        (ap (λ (l : List Packet). l ++ turn.arrivals) e ∙ split) room in
    let taken =
      inspect_passed (record q { queue = rest ++ turn.between }) expected x
        (λ r. wait r expected rest_turns) natural past in
    let (last, ends) =
      wait-Delivers expected packet (rest ++ turn.between) rest_turns nat same d
        (record q { queue = rest ++ turn.between; stale = q.stale + 1 })
        (record { healthy = o.healthy; fits = o.fits; opened = o.opened }) refl in
    (last, start ∙ taken ∙ ends)
