-- ===== src/CacheLifecycle/Anomaly.antt =====
-- analyze_vulkan_cache_lifecycle.py: a cache that is destroyed while a call uses it.
use my_ad.Prelude.{
  ℕ, ◌+◌, ◌≤◌, ◌<◌, String, ◌≡◌, refl, sym, ap, ◌∙◌, Bool, true, false, not, ◌&&◌, Option, none,
  some, List, [], ◌∷◌, ◌++◌, Result, ok, err, str_eq, contains, is_empty, length, length-append,
  arith, Bool-cases, Option-cases, inl, inr, subst, &&-eq-true,
}
use my_ad.CacheLifecycle.Event.{
  Kind, create, enqueue, destroy, Operation, create_cache, destroy_cache, object, Phase, enter,
  return, Event,
}
use my_ad.CacheLifecycle.Replay.{
  Reason, Replay, ReplayFault, in_use, note, enqueue_object, cache_notes, enter_notes,
  record_overlap, enter_call, effect, return_call, step_call, step, replay, find_pending,
  drop_pending, keeps_handle, is_open, entry_for, created, object_created, object_destroyed,
  is_destroy, destroy_during_use, duplicate_create, duplicate_object_create,
}
use my_ad.CacheLifecycle.Report.{Marker, anomaly, verdict}
use my_ad.CacheLifecycle.Balance.{replay-step, pending-cache_notes}

raised : {x : Replay} {e : ReplayFault} → ◌≡◌ {A = Result ReplayFault Replay} (err e) (ok x) → ⊥
raised p = cc

ok_injective : {x y : Replay} → ◌≡◌ {A = Result ReplayFault Replay} (ok x) (ok y) → x ≡ y
ok_injective p = cc

-- What has been found is kept.
abbrev Keeps : Replay → Replay → Type 0
Keeps s s' = length s.invalid ≤ length s'.invalid

note-Keeps : (b : Bool) (n : ℕ) (r : Reason) (h : String) (s : Replay) → Keeps s (note b n r h s)
unfolding note
note-Keeps b n r h s =
    ground (arith, length-append s.invalid (record { sequence = n; reason = r; handle = h } ∷ []))

enqueue_object-Keeps :
    (n : ℕ) (k : Kind) (e : Event) (s : Replay) → Keeps s (enqueue_object n k e s)
unfolding enqueue_object
enqueue_object-Keeps n k e s = note-Keeps _ n _ _ s

cache_notes-Keeps : (n : ℕ) (e : Event) (s : Replay) → Keeps s (cache_notes n e s)
unfolding cache_notes
cache_notes-Keeps n e s = omega (arith, note-Keeps _ n _ _ s, note-Keeps _ n _ _ _)

enter_notes-Keeps : (n : ℕ) (e : Event) (s : Replay) → Keeps s (enter_notes n e s)
unfolding enter_notes
enter_notes-Keeps n e s = omega (arith, note-Keeps _ n _ _ _, cache_notes-Keeps n e s)

record_overlap-Keeps : (n : ℕ) (e : Event) (s : Replay) → Keeps s (record_overlap n e s)
unfolding record_overlap
record_overlap-Keeps n e s = ground arith

effect-Keeps : (n : ℕ) (e : Event) (o : Operation) (s : Replay) → Keeps s (effect n e o s)
unfolding effect created object_created object_destroyed
effect-Keeps n e create_cache s =
    ground (arith, note-Keeps (contains e.cache s.live) n duplicate_create e.cache s)
effect-Keeps n e (object k create) s =
    ground
      (arith, note-Keeps (contains e.cache (s.live_objects k)) n duplicate_object_create e.cache s)
effect-Keeps n e (object k destroy) s = note-Keeps _ n _ _ s
effect-Keeps n e destroy_cache s = ground arith
effect-Keeps n e (object k enqueue) s = omega arith
effect-Keeps n e _ s = omega arith

-- A call that begins keeps what its tests have noted.
enter_call-notes :
    (has : Bool) (n : ℕ) (e : Event) (s : Replay) {s' : Replay}
    → enter_call has n e s ≡ ok s'
    → length (enter_notes n e s).invalid ≤ length s'.invalid
unfolding enter_call
enter_call-notes has n e s h = elim (Bool-cases (is_open (e.thread, e.operation) s.pending)) [
  | inl o ↦ absurd (raised (rw (o, enter_call) at h))
  | inr new ↦
      let noted = enter_notes n e s in
      let entered = record noted { pending = noted.pending ++ entry_for has n e ∷ [] } in
      omega (
        arith,
        record_overlap-Keeps n e entered,
        ap (λ (r : Replay). length r.invalid) (ok_injective (rw (new, enter_call) at h)),
      )
]

return_call-Keeps :
    (n : ℕ) (e : Event) (s : Replay) {s' : Replay} → return_call n e s ≡ ok s' → Keeps s s'
unfolding return_call
return_call-Keeps n e s h = elim (Option-cases (find_pending (e.thread, e.operation) s.pending)) [
  | inl gone ↦ absurd (raised (rw (gone, return_call) at h))
  | inr (start, found) ↦
      elim (Bool-cases (keeps_handle e.operation && not (str_eq e.cache start.cache))) [
        | inl changed ↦ absurd (raised (rw (found, return_call, changed) at h))
        | inr kept ↦
            let rest = record s { pending = drop_pending (e.thread, e.operation) s.pending } in
            omega (
              arith,
              effect-Keeps n e e.operation rest,
              ap (λ (r : Replay). length r.invalid)
                  (ok_injective (rw (found, return_call, kept) at h)),
            )
      ]
]

step_call-Keeps :
    (has : Bool) (n : ℕ) (e : Event) (s : Replay) {s' : Replay} (p : Phase)
    → e.phase ≡ p
    → step_call has n e s ≡ ok s'
    → Keeps s s'
step_call-Keeps has n e s enter i h =
    omega (arith, enter_notes-Keeps n e s, enter_call-notes has n e s (rw (i, step_call) at h))
step_call-Keeps has n e s return i h = return_call-Keeps n e s (rw (i, step_call) at h)

step-Keeps :
    (has : Bool) (n : ℕ) (e : Event) (o : Operation) (s : Replay) {s' : Replay}
    → step has n e o s ≡ ok s'
    → Keeps s s'
unfolding step
step-Keeps has n e (object k enqueue) s h =
    omega
      (arith, enqueue_object-Keeps n k e s, ap (λ (r : Replay). length r.invalid) (ok_injective h))
step-Keeps has n e (object k create) s h = step_call-Keeps has n e s e.phase refl h
step-Keeps has n e create_cache s h = step_call-Keeps has n e s e.phase refl h
step-Keeps has n e _ s h = step_call-Keeps has n e s e.phase refl h

replay-Keeps :
    (has : Bool) (n : ℕ) (lines : List (Option Event)) (s s' : Replay)
    → replay has n lines s ≡ ok s'
    → Keeps s s'
replay-Keeps has n [] s s' h =
    omega (arith, ap (λ (r : Replay). length r.invalid) (ok_injective (replayed h)))
  where
    replayed : replay has n [] s ≡ ok s' → ◌≡◌ {A = Result ReplayFault Replay} (ok s) (ok s')
    replayed k = unfold replay in k
replay-Keeps has n (none ∷ lines) s s' h = absurd (unfold replay in raised h)
replay-Keeps has n (some e ∷ lines) s s' h =
    let (_, s1, one, rest) = replay-step has n e lines s h in
    omega (arith, step-Keeps has n e e.operation s one, replay-Keeps has (n + 1) lines s1 s' rest)

note-true :
    (b : Bool) (n : ℕ) (r : Reason) (h : String) (s : Replay)
    → b ≡ true
    → length s.invalid < length (note b n r h s).invalid
unfolding note
note-true b n r h s e =
    ground (arith, length-append s.invalid (record { sequence = n; reason = r; handle = h } ∷ []))

enter_notes_destroy :
    (n : ℕ) (e : Event) (s : Replay)
    → e.operation ≡ destroy_cache
    → in_use e.cache s.pending ≡ true
    → length s.invalid < length (enter_notes n e s).invalid
unfolding enter_notes
enter_notes_destroy n e s d u =
    let b = cache_notes n e s in
    omega (
      arith,
      cache_notes-Keeps n e s,
      note-true (is_destroy e.operation && in_use e.cache b.pending) n destroy_during_use e.cache b
          ((&&-eq-true _ _).1
            (ap is_destroy d, ap (in_use e.cache) (pending-cache_notes n e s) ∙ u)),
    )

step_destroy :
    (has : Bool) (n : ℕ) (e : Event) (s : Replay)
    → e.operation ≡ destroy_cache
    → step has n e e.operation s ≡ step_call has n e s
step_destroy has n e s d =
    subst (λ (o : Operation). step has n e o s ≡ step_call has n e s) (sym d) (unfold step in refl)

step_call_enter :
    (has : Bool) (n : ℕ) (e : Event) (s : Replay) {r : Result ReplayFault Replay}
    → e.phase ≡ enter
    → step_call has n e s ≡ r
    → enter_call has n e s ≡ r
step_call_enter has n e s p h = rw (p, step_call) at h

verdict_found :
    (observed : Bool) (m : Marker) (s : Replay)
    → 0 < length s.invalid
    → verdict observed m s ≡ anomaly
verdict_found observed m s h = unfold verdict in rw (nonempty s.invalid h) refl
  where
    nonempty : {A : Type 0} (xs : List A) → 0 < length xs → is_empty xs ≡ false
    nonempty [] k = absurd (omega arith)
    nonempty (x ∷ xs) k = refl

-- In an accepted log, from any line on, beginning to destroy a cache while another call is using it makes the report an
-- anomaly, whatever lines follow.
pub destroy_in_use-anomaly :
    (has observed : Bool) (n : ℕ) (e : Event) (lines : List (Option Event)) (s s' : Replay)
    (m : Marker)
    → e.operation ≡ destroy_cache
    → e.phase ≡ enter
    → in_use e.cache s.pending ≡ true
    → replay has n (some e ∷ lines) s ≡ ok s'
    → verdict observed m s' ≡ anomaly
destroy_in_use-anomaly has observed n e lines s s' m d p u h =
    let (_, s1, one, rest) = replay-step has n e lines s h in
    let entered = step_call_enter has n e s p (sym (step_destroy has n e s d) ∙ one) in
    verdict_found observed m s' (
      omega (
        arith,
        enter_notes_destroy n e s d u,
        enter_call-notes has n e s entered,
        replay-Keeps has (n + 1) lines s1 s' rest,
      ))
