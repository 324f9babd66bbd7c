-- ===== src/RuntimeGate/QueueOverflow.antt =====
-- check_carla_runtime.py, `AlignedQueue`: the packet that does not fit.
use my_ad.Prelude.{
  ℕ, refl, true, ◌+◌, ◌≡◌, ap, ◌∙◌, false, some, List, [], ◌∷◌, ◌++◌, err, length, length-append,
  ltb, arith,
}
use my_ad.Prelude.Int.{ℤ}
use my_ad.RuntimeGate.Queue.{
  queue_size, overflow_receiving, Packet, AlignedQueue, receive, receive_all, Turn, frame,
}
use my_ad.RuntimeGate.QueueLaws.{failure_sticks}
use my_ad.RuntimeGate.QueueReceive.{IsOpen, receive_full}
use my_ad.RuntimeGate.QueueProgress.{receive_all_fit}

receive_all-append :
    (q : AlignedQueue) (before after : List Packet)
    → receive_all q (before ++ after) ≡ receive_all (receive_all q before) after
unfolding receive_all
receive_all-append q [] after = refl
receive_all-append q (p ∷ before) after = receive_all-append (receive q p) before after

full_test : (n : ℕ) → n ≡ queue_size → ltb n queue_size ≡ false
full_test n h = ground (arith, h)

-- On a queue that has not failed and is not closed, the first packets, as many as there is room for,
-- are queued in their order; the next one is not, and after it every wait, whatever else arrives
-- before it and during it, takes nothing and raises the overflow with the frame of that packet.
pub frame-overflow :
    (q : AlignedQueue) (before : List Packet) (p : Packet) (after : List Packet) (expected : ℤ)
    (turns : List Turn)
    → IsOpen q
    → length q.queue + length before ≡ queue_size
    → frame (receive_all q (before ++ p ∷ after)) expected turns ≡ (
      record q {
        queue = q.queue ++ before;
        overflow = true;
        failure = some (overflow_receiving p.frame);
      },
      err (overflow_receiving p.frame),
    )
unfolding receive_all
frame-overflow q before p after expected turns o full =
    let filled : AlignedQueue = record q { queue = q.queue ++ before } in
    let failed : AlignedQueue = record filled {
      overflow = true;
      failure = some (overflow_receiving p.frame);
    } in
    let fit = receive_all_fit q before o (omega (arith, full)) in
    let over =
      receive_full filled p (record { healthy = o.healthy; fits = o.fits; opened = o.opened })
        (full_test (length filled.queue) (length-append q.queue before ∙ full)) in
    let whole =
      receive_all-append q before (p ∷ after)
      ∙ ap (λ (r : AlignedQueue). receive_all r (p ∷ after)) fit
      ∙ ap (λ (r : AlignedQueue). receive_all r after) over in
    let (stays, raises) =
      failure_sticks failed after expected turns (overflow_receiving p.frame) refl in
    ap (λ (r : AlignedQueue). frame r expected turns) whole ∙ raises
