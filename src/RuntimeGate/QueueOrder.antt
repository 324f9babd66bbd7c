-- ===== src/RuntimeGate/QueueOrder.antt =====
-- check_carla_runtime.py, `AlignedQueue`: the packets before and after a wait that succeeds.
use mathlib.Core.List.{append_assoc, append-nil}
use my_ad.Prelude.{
  ℕ, suc, zero, ◌+◌, ◌≡◌, ◌≢◌, ap, ◌∙◌, sym, true, false, List, [], ◌∷◌, ◌++◌, ok, length, arith,
  Bool-cases, inl, inr, All, subst,
}
use my_ad.Prelude.Int.{ℤ, pos, ltb_ℤ}
use my_ad.RuntimeGate.Queue.{
  Packet, AlignedQueue, receive, receive_all, Turn, Frame, take_next, inspect, wait,
}
use my_ad.RuntimeGate.QueueReceive.{IsOpen, receive_all_room}

-- The packets that the callback delivers in the first `n` turns.
abbrev pub arrivals_of : ℕ → List Turn → List Packet
arrivals_of zero turns = []
arrivals_of (suc n) [] = []
arrivals_of (suc n) (turn ∷ turns) = turn.arrivals ++ (turn.between ++ arrivals_of n turns)

-- Of the packets that were queued or delivered, in that order, the first ones are of past frames
-- and were counted, the next one is returned, and the rest is queued still.
pub record IsAligned (q : AlignedQueue) (expected : ℤ) (delivered : List Packet) (q' : AlignedQueue)
    (packet : Packet) : Type 0 where
  pub dropped : List Packet
  pub split : q.queue ++ delivered ≡ dropped ++ packet ∷ q'.queue
  pub past : All (λ p. ltb_ℤ p.frame expected ≡ true) dropped
  pub matches : packet.frame ≡ expected
  pub counted : q'.stale ≡ q.stale + length dropped

-- With an overflow no packet is returned.
wait_overflowed :
    (q : AlignedQueue) (expected : ℤ) (turns : List Turn) (q' : AlignedQueue) (p : Packet)
    → q.overflow ≡ true
    → wait q expected turns ≢ (q', ok p)
unfolding wait
wait_overflowed q expected [] q' p o h = ground arith
wait_overflowed q expected (turn ∷ turns) q' p o h = ground arith

-- An overflow stays.
receive_all_overflowed :
    (q : AlignedQueue) (ps : List Packet) → q.overflow ≡ true → (receive_all q ps).overflow ≡ true
unfolding receive_all
receive_all_overflowed q [] o = o
receive_all_overflowed q (p ∷ ps) o =
    receive_all_overflowed (receive q p) ps (unfold receive in ground arith)

inspect_overflowed :
    (q : AlignedQueue) (expected : ℤ) (turns : List Turn) (x : Packet) (q' : AlignedQueue)
    (p : Packet)
    → q.overflow ≡ true
    → inspect q expected x (λ r. wait r expected turns) ≢ (q', ok p)
inspect_overflowed q expected turns x q' p o h =
    ground (arith, wait_overflowed (record q { stale = q.stale + 1 }) expected turns q' p o)

take_next_overflowed :
    (q : AlignedQueue) (expected : ℤ) (turns : List Turn) (ps between : List Packet)
    (q' : AlignedQueue) (p : Packet)
    → q.overflow ≡ true
    → take_next q expected ps between (λ r. wait r expected turns) ≢ (q', ok p)
take_next_overflowed q expected turns [] between q' p o h = ground arith
take_next_overflowed q expected turns (x ∷ ps) between q' p o h =
    inspect_overflowed (receive_all (record q { queue = ps }) between) expected turns x q' p
      (receive_all_overflowed (record q { queue = ps }) between o) h

ok_frame :
    {q r : AlignedQueue} {x y : Packet} → ◌≡◌ {A = Frame} (q, ok x) (r, ok y) → (q ≡ r) × (x ≡ y)
ok_frame e = ground arith

pub same_frame : (a b : ℤ) → ltb_ℤ a b ≡ false → ltb_ℤ b a ≡ false → a ≡ b
same_frame a b h k = ground arith

module _ (expected : ℤ) (turns : List Turn) (q' : AlignedQueue) (packet : Packet)
    (again : (r : AlignedQueue)
      → IsOpen r
      → wait r expected turns ≡ (q', ok packet)
      → (n : ℕ) × IsAligned r expected (arrivals_of n turns) q' packet) where
  -- The packet `x` was taken, and `rest` is queued behind it.
  inspect-IsAligned :
      (q : AlignedQueue) (x : Packet) (rest : List Packet)
      → IsOpen q
      → inspect (record q { queue = rest }) expected x (λ r. wait r expected turns)
        ≡ (q', ok packet)
      → (n : ℕ) × IsAligned (record q { queue = x ∷ rest }) expected (arrivals_of n turns) q' packet
  inspect-IsAligned q x ps o h = elim (Bool-cases (ltb_ℤ x.frame (pos 0))) [
    | inl negative ↦ absurd (ground arith)
    | inr natural ↦ elim (Bool-cases (ltb_ℤ x.frame expected)) [
      | inl old ↦
          let (n, a) =
            again (record q { queue = ps; stale = q.stale + 1 })
              (record { healthy = o.healthy; fits = o.fits; opened = o.opened })
              (rw (natural, old) at h) in
          (
            n,
            record {
              dropped = x ∷ a.dropped;
              split = ap (λ (l : List Packet). x ∷ l) a.split;
              past = (old, a.past);
              matches = a.matches;
              counted = omega (arith, a.counted);
            },
          )
      | inr current ↦ elim (Bool-cases (ltb_ℤ expected x.frame)) [
        | inl future ↦ absurd (ground arith)
        | inr reached ↦
            let (q_same, p_same) = ok_frame (rw (natural, current, reached, o.fits) at h) in
            (
              0,
              record {
                dropped = [];
                split = append-nil (x ∷ ps) ∙ cc (q_same, p_same);
                past = tt;
                matches =
                    ap (λ (p : Packet). p.frame) (sym p_same)
                    ∙ same_frame x.frame expected current reached;
                counted = ground (arith, q_same);
              },
            )
      ]
    ]
  ]

  take_next-IsAligned :
      (q : AlignedQueue) (ps between : List Packet)
      → IsOpen q
      → take_next q expected ps between (λ r. wait r expected turns) ≡ (q', ok packet)
      → (n : ℕ) × IsAligned
          (record q { queue = ps })
          expected
          (between ++ arrivals_of n turns)
          q'
          packet
  take_next-IsAligned q [] between o h = absurd (ground arith)
  take_next-IsAligned q (x ∷ ps) between o h =
      let taken : AlignedQueue = record q { queue = ps } in
      let is_open : IsOpen taken = record {
        healthy = o.healthy;
        fits = o.fits;
        opened = o.opened;
      } in
      elim (Bool-cases (receive_all taken between).overflow) [
        | inl over ↦
            absurd
              (inspect_overflowed (receive_all taken between) expected turns x q' packet over h)
        | inr room ↦
            let (n, a) = inspect-IsAligned q x (ps ++ between) o (
              subst
                (λ (r : AlignedQueue).
                  inspect r expected x (λ s. wait s expected turns) ≡ (q', ok packet))
                (receive_all_room taken between is_open room) h) in
            (
              n,
              record {
                dropped = a.dropped;
                split =
                    ap (λ (l : List Packet). x ∷ l)
                      (sym (append_assoc ps between (arrivals_of n turns)))
                    ∙ a.split;
                past = a.past;
                matches = a.matches;
                counted = a.counted;
              },
            )
      ]

pub wait_turn :
    (q : AlignedQueue) (expected : ℤ) (turn : Turn) (turns : List Turn)
    → q.overflow ≡ false
    → turn.late ≡ false
    → wait q expected (turn ∷ turns)
      ≡ take_next
          (receive_all q turn.arrivals)
          expected
          (receive_all q turn.arrivals).queue
          turn.between
          (λ r. wait r expected turns)
unfolding wait
wait_turn q expected turn turns o e = ground arith

-- On a queue that has not failed and is not closed, a wait that succeeds returns a packet of the
-- expected frame; the packets before it, and no others, are dropped, all of them of past frames and each of them counted; and the packets behind
-- it are still queued, in their order.
pub wait-IsAligned :
    (q : AlignedQueue) (expected : ℤ) (turns : List Turn) (q' : AlignedQueue) (packet : Packet)
    → IsOpen q
    → wait q expected turns ≡ (q', ok packet)
    → (n : ℕ) × IsAligned q expected (arrivals_of n turns) q' packet
wait-IsAligned q expected [] q' packet o h = absurd (unfold wait in ground arith)
wait-IsAligned q expected (turn ∷ turns) q' packet o h = elim (Bool-cases turn.late) [
  | inl late ↦ absurd (unfold wait in ground arith)
  | inr early ↦
      let taken = sym (wait_turn q expected turn turns o.fits early) ∙ h in
      elim (Bool-cases (receive_all q turn.arrivals).overflow) [
        | inl over ↦ absurd (
            take_next_overflowed (receive_all q turn.arrivals) expected turns
              (receive_all q turn.arrivals).queue turn.between q' packet over taken)
        | inr room ↦
            let (n, a) =
              take_next-IsAligned expected turns q' packet
                (λ r k e. wait-IsAligned r expected turns q' packet k e)
                (record q { queue = q.queue ++ turn.arrivals }) (q.queue ++ turn.arrivals)
                turn.between (record { healthy = o.healthy; fits = o.fits; opened = o.opened })
                (subst
                  (λ (r : AlignedQueue).
                    take_next r expected r.queue turn.between (λ r. wait r expected turns)
                    ≡ (q', ok packet))
                  (receive_all_room q turn.arrivals o room) taken) in
            (
              suc n,
              record {
                dropped = a.dropped;
                split =
                    sym (append_assoc q.queue turn.arrivals (turn.between ++ arrivals_of n turns))
                    ∙ a.split;
                past = a.past;
                matches = a.matches;
                counted = a.counted;
              },
            )
      ]
]
