-- ===== src/CacheLifecycle/Balance.antt =====
-- analyze_vulkan_cache_lifecycle.py: the calls and the returns of a log.
use my_ad.Prelude.{
  ℕ, ◌+◌, String, ◌≡◌, refl, sym, ap, ◌∙◌, Bool, true, false, not, ◌&&◌, Option, none, some, List,
  [], ◌∷◌, ◌++◌, Result, ok, >>=-eq-ok, str_eq, str_eq_iff, contains, ◌==◌, arith, Bool-cases,
  Option-cases, inl, inr, &&-eq-true, ◌↔◌,
}
use my_ad.CacheLifecycle.Event.{
  Kind, create, enqueue, destroy, Operation, create_cache, destroy_cache, object, Phase, enter,
  return, Event, same_operation, same_operation_iff,
}
use my_ad.CacheLifecycle.Replay.{
  Key, same_key, Pending, key_of, Replay, ReplayFault, enqueue_object, note, cache_notes,
  enter_notes, record_overlap, Reason, duplicate_create, duplicate_object_create, entry_for,
  is_open, enter_call, find_pending, drop_pending, keeps_handle, step_call, created, object_created,
  object_destroyed, effect, return_call, step, replay,
}

same_key_iff : (a b : Key) → (same_key a b ≡ true) ↔ (a ≡ b)
unfolding same_key
same_key_iff (s, f) (t, g) = (
  λ h.
      let (x, y) = (&&-eq-true (str_eq s t) (same_operation f g)).0 h in
      pair ((str_eq_iff s t).0 x) ((same_operation_iff f g).0 y),
  λ e. (&&-eq-true (str_eq s t) (same_operation f g)).1 (
    (str_eq_iff s t).1 (ap (λ (k : Key). k.0) e),
    (same_operation_iff f g).1 (ap (λ (k : Key). k.1) e),
  ),
)
  where
    pair : s ≡ t → f ≡ g → ◌≡◌ {A = Key} (s, f) (t, g)
    pair p q = cc

abbrev one_if : Bool → ℕ
one_if true = 1
one_if false = 0

-- How many calls with this key are open.
abbrev pub open_calls : Key → List Pending → ℕ
open_calls key [] = 0
open_calls key (p ∷ pending) = one_if (same_key (key_of p) key) + open_calls key pending

-- Enqueue lines stand alone; every other line begins or ends a call.
abbrev is_call : Operation → Bool
is_call (object _ enqueue) = false
is_call _ = true

abbrev pub is_enter : Phase → Bool
is_enter enter = true
is_enter return = false

abbrev begins : Key → Event → Bool
begins key e = is_call e.operation && (is_enter e.phase && same_key (e.thread, e.operation) key)

abbrev ends : Key → Event → Bool
ends key e = is_call e.operation && (not (is_enter e.phase) && same_key (e.thread, e.operation) key)

-- The lines that begin, and that end, a call with this key.
abbrev pub enters : Key → List (Option Event) → ℕ
enters key [] = 0
enters key (none ∷ lines) = enters key lines
enters key (some e ∷ lines) = one_if (begins key e) + enters key lines

abbrev pub returns : Key → List (Option Event) → ℕ
returns key [] = 0
returns key (none ∷ lines) = returns key lines
returns key (some e ∷ lines) = one_if (ends key e) + returns key lines

open_calls-snoc :
    (key : Key) (pending : List Pending) (p : Pending)
    → open_calls key (pending ++ p ∷ []) ≡ open_calls key pending + one_if (same_key (key_of p) key)
open_calls-snoc key [] p = omega arith
open_calls-snoc key (x ∷ pending) p = omega (arith, open_calls-snoc key pending p)

pub pending-note :
    (b : Bool) (n : ℕ) (r : Reason) (h : String) (s : Replay) → (note b n r h s).pending ≡ s.pending
unfolding note
pending-note b n r h s = ground arith

pub pending-cache_notes : (n : ℕ) (e : Event) (s : Replay) → (cache_notes n e s).pending ≡ s.pending
unfolding cache_notes
pending-cache_notes n e s = pending-note _ n _ _ _ ∙ pending-note _ n _ _ s

pending-enter_notes : (n : ℕ) (e : Event) (s : Replay) → (enter_notes n e s).pending ≡ s.pending
unfolding enter_notes
pending-enter_notes n e s = pending-note _ n _ _ _ ∙ pending-cache_notes n e s

pending-record_overlap :
    (n : ℕ) (e : Event) (s : Replay) → (record_overlap n e s).pending ≡ s.pending
unfolding record_overlap
pending-record_overlap n e s = ground arith

pending-effect :
    (n : ℕ) (e : Event) (o : Operation) (s : Replay) → (effect n e o s).pending ≡ s.pending
unfolding effect created object_created object_destroyed
pending-effect n e create_cache s =
    ground (arith, pending-note (contains e.cache s.live) n duplicate_create e.cache s)
pending-effect n e (object k create) s =
    ground (
      arith,
      pending-note (contains e.cache (s.live_objects k)) n duplicate_object_create e.cache s,
    )
pending-effect n e (object k destroy) s = pending-note _ n _ _ s
pending-effect n e destroy_cache s = ground arith
pending-effect n e (object k enqueue) s = refl
pending-effect n e _ s = refl

pending-enqueue_object :
    (n : ℕ) (k : Kind) (e : Event) (s : Replay) → (enqueue_object n k e s).pending ≡ s.pending
unfolding enqueue_object
pending-enqueue_object n k e s = pending-note _ n _ _ s

-- A call that begins was not open before, and is the last one open now.
pub enter_call-pending :
    (has : Bool) (n : ℕ) (e : Event) (s : Replay) {s' : Replay}
    → enter_call has n e s ≡ ok s'
    → (s'.pending ≡ s.pending ++ entry_for has n e ∷ [])
      × (is_open (e.thread, e.operation) s.pending ≡ false)
unfolding enter_call
enter_call-pending has n e s h = elim (Bool-cases (is_open (e.thread, e.operation) s.pending)) [
  | inl open_ ↦ cc (rw (open_, enter_call) at h)
  | inr new ↦
      let noted = enter_notes n e s in
      let entered = record noted { pending = noted.pending ++ entry_for has n e ∷ [] } in
      (
        ap (λ (r : Replay). r.pending) (sym (ok_injective (rw (new, enter_call) at h)))
            ∙ (pending-record_overlap n e entered
                ∙ ap (λ (l : List Pending). l ++ entry_for has n e ∷ [])
                    (pending-enter_notes n e s)),
        new,
      )
]
  where
    ok_injective : {x y : Replay} → ◌≡◌ {A = Result ReplayFault Replay} (ok x) (ok y) → x ≡ y
    ok_injective p = cc

enter_call-open :
    (has : Bool) (n : ℕ) (e : Event) (s : Replay) {s' : Replay} (key : Key)
    → enter_call has n e s ≡ ok s'
    → open_calls key s'.pending
      ≡ open_calls key s.pending + one_if (same_key (e.thread, e.operation) key)
enter_call-open has n e s key h =
    ap (open_calls key) (enter_call-pending has n e s h).0
    ∙ open_calls-snoc key s.pending (entry_for has n e)

drop_pending-open :
    (key k : Key) (pending : List Pending) {p : Pending}
    → find_pending k pending ≡ some p
    → open_calls key pending ≡ open_calls key (drop_pending k pending) + one_if (same_key k key)
unfolding find_pending drop_pending
drop_pending-open key k [] h = cc
drop_pending-open key k (x ∷ pending) h = elim (Bool-cases (same_key (key_of x) k)) [
  | inl e ↦
      rw (e, drop_pending)
        (omega (arith, ap (λ (j : Key). one_if (same_key j key)) ((same_key_iff (key_of x) k).0 e)))
  | inr e ↦
      rw (e, drop_pending)
        (omega (arith, drop_pending-open key k pending (rw (e, find_pending) at h)))
]

return_call-open :
    (n : ℕ) (e : Event) (s : Replay) {s' : Replay} (key : Key)
    → return_call n e s ≡ ok s'
    → open_calls key s.pending
      ≡ open_calls key s'.pending + one_if (same_key (e.thread, e.operation) key)
unfolding return_call
return_call-open n e s key h =
    elim (Option-cases (find_pending (e.thread, e.operation) s.pending)) [
      | inl e0 ↦ cc (rw (e0, return_call) at h)
      | inr (start, found) ↦
          elim (Bool-cases (keeps_handle e.operation && not (str_eq e.cache start.cache))) [
            | inl changed ↦ cc (rw (found, return_call, changed) at h)
            | inr kept ↦
                let rest = record s { pending = drop_pending (e.thread, e.operation) s.pending } in
                drop_pending-open key (e.thread, e.operation) s.pending found
                ∙ ap
                    (λ (l : List Pending).
                      open_calls key l + one_if (same_key (e.thread, e.operation) key))
                    (sym (
                      ap (λ (r : Replay). r.pending)
                        (sym (ok_injective (rw (found, return_call, kept) at h)))
                      ∙ pending-effect n e e.operation rest))
          ]
    ]
  where
    ok_injective : {x y : Replay} → ◌≡◌ {A = Result ReplayFault Replay} (ok x) (ok y) → x ≡ y
    ok_injective p = cc

abbrev Balanced : Key → Event → Operation → Replay → Replay → Type 0
Balanced key e o s s' =
    open_calls key s'.pending
      + one_if (is_call o && (not (is_enter e.phase) && same_key (e.thread, e.operation) key))
    ≡ open_calls key s.pending
      + one_if (is_call o && (is_enter e.phase && same_key (e.thread, e.operation) key))

step_call_keeps_count :
    (has : Bool) (n : ℕ) (e : Event) (s : Replay) {s' : Replay} (key : Key) (p : Phase)
    → e.phase ≡ p
    → step_call has n e s ≡ ok s'
    → open_calls key s'.pending
        + one_if (not (is_enter e.phase) && same_key (e.thread, e.operation) key)
      ≡ open_calls key s.pending + one_if (is_enter e.phase && same_key (e.thread, e.operation) key)
step_call_keeps_count has n e s key enter i h =
    ground (arith, i, enter_call-open has n e s key (rw (i, step_call) at h))
step_call_keeps_count has n e s key return i h =
    ground (arith, i, return_call-open n e s key (rw (i, step_call) at h))

-- One line of an accepted log.
step_keeps_count :
    (has : Bool) (n : ℕ) (e : Event) (o : Operation) (s : Replay) {s' : Replay} (key : Key)
    → step has n e o s ≡ ok s'
    → Balanced key e o s s'
unfolding step
step_keeps_count has n e (object k enqueue) s key h = ground (arith, pending-enqueue_object n k e s)
step_keeps_count has n e (object k create) s key h =
    step_call_keeps_count has n e s key e.phase refl h
step_keeps_count has n e create_cache s key h = step_call_keeps_count has n e s key e.phase refl h
step_keeps_count has n e _ s key h = step_call_keeps_count has n e s key e.phase refl h

-- The first line of an accepted log has its own number, and is accepted.
pub replay-step :
    (has : Bool) (n : ℕ) (e : Event) (lines : List (Option Event)) (s : Replay) {s' : Replay}
    → replay has n (some e ∷ lines) s ≡ ok s'
    → ((e.number == n) ≡ true)
      × (s1 : Replay) × (step has n e e.operation s ≡ ok s1)
      × (replay has (n + 1) lines s1 ≡ ok s')
unfolding replay
replay-step has n e lines s h = elim (Bool-cases (e.number == n)) [
  | inr f ↦ cc (rw (replay, f) at h)
  | inl t ↦
      let (s1, one, rest) =
        >>=-eq-ok (step has n e e.operation s) (λ r. replay has (n + 1) lines r)
          (rw (replay, t) at h) in
      (t, s1, one, rest)
]

-- In every log that is accepted, for every thread and operation, the calls that were open before it
-- and those that begin in it are as many as those that return in it and those that are open after it.
pub replay-balance :
    (has : Bool) (n : ℕ) (lines : List (Option Event)) (s s' : Replay) (key : Key)
    → replay has n lines s ≡ ok s'
    → open_calls key s.pending + enters key lines ≡ open_calls key s'.pending + returns key lines
replay-balance has n [] s s' key h = ap (λ (r : Replay). open_calls key r.pending + 0) (ended h)
  where
    ended : replay has n [] s ≡ ok s' → s ≡ s'
    ended k = unfold replay in cc k
replay-balance has n (none ∷ lines) s s' key h = absurd (unfold replay in cc h)
replay-balance has n (some e ∷ lines) s s' key h =
    let (_, s1, one, rest) = replay-step has n e lines s h in
    omega (
      arith,
      step_keeps_count has n e e.operation s key one,
      replay-balance has (n + 1) lines s1 s' key rest,
    )
