-- ===== src/RuntimeGate/QueueReceive.antt =====
-- check_carla_runtime.py, `AlignedQueue`: the packets that a healthy queue takes.
use mathlib.Core.List.{append_assoc, append-nil}
use my_ad.Prelude.{
  ◌≡◌, refl, ap, ◌∙◌, sym, true, false, none, some, List, [], ◌∷◌, ◌++◌, length, ltb, arith,
  Bool-cases, inl, inr,
}
use my_ad.RuntimeGate.Queue.{
  queue_size, overflow_receiving, Packet, AlignedQueue, receive, receive_all,
}
use my_ad.RuntimeGate.QueueLaws.{receive_all_failed}

-- The queue takes packets: it has not failed and is not closed.
pub record IsOpen (q : AlignedQueue) : Type 0 where
  pub healthy : q.failure ≡ none
  pub fits : q.overflow ≡ false
  pub opened : q.closed ≡ false

pub receive_room :
    (q : AlignedQueue) (p : Packet)
    → IsOpen q
    → ltb (length q.queue) queue_size ≡ true
    → receive q p ≡ record q { queue = q.queue ++ p ∷ [] }
unfolding receive
receive_room q p o h = ground arith

pub receive_full :
    (q : AlignedQueue) (p : Packet)
    → IsOpen q
    → ltb (length q.queue) queue_size ≡ false
    → receive q p ≡ record q { overflow = true; failure = some (overflow_receiving p.frame) }
unfolding receive
receive_full q p o h = ground arith

-- Packets that arrive with no overflow are queued in their order.
pub receive_all_room :
    (q : AlignedQueue) (ps : List Packet)
    → IsOpen q
    → (receive_all q ps).overflow ≡ false
    → receive_all q ps ≡ record q { queue = q.queue ++ ps }
unfolding receive_all
receive_all_room q [] o h =
    ap (λ (l : List Packet). record q { queue = l }) (sym (append-nil q.queue))
receive_all_room q (p ∷ ps) o h = elim (Bool-cases (ltb (length q.queue) queue_size)) [
  | inl room ↦
      let one = receive_room q p o room in
      let rest =
        receive_all_room (record q { queue = q.queue ++ p ∷ [] }) ps
          (record { healthy = o.healthy; fits = o.fits; opened = o.opened })
          (rw (receive_all, one) at h) in
      rw (receive_all, one) rest
      ∙ ap (λ (l : List Packet). record q { queue = l }) (append_assoc q.queue (p ∷ []) ps)
  | inr full ↦ cc (
      rw
        (
          receive_all,
          receive_full q p o full,
          receive_all_failed
              (record q { overflow = true; failure = some (overflow_receiving p.frame) }) ps
              (overflow_receiving p.frame) refl,
        )
        at h)
]
