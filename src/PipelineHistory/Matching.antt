-- ===== src/PipelineHistory/Matching.antt =====
-- analyze_vulkan_pipeline_history.py: which begins are left when the results are taken away.
use my_ad.Prelude.{
  ◌≡◌, refl, ap, ◌∙◌, subst, Bool, true, false, ◌||◌, Option, none, some, List, [], ◌∷◌, ◌++◌, ok,
  err, >>=-eq-ok, ok_injective, if◌then◌else◌, any, arith, codes,
}
use my_ad.PyText.{Text, same, field_of, put, find, remove}
use my_ad.PyText.Laws.{find-put, find-remove, AreFresh, put-AreFresh, remove-AreFresh}
use my_ad.PipelineHistory.Record.{no_key, Event}
use my_ad.PipelineHistory.History.{
  Phase, begin, result, phase_of, call_of, Calls, sort_calls, pop_results,
}

-- The event has this call.
abbrev pub has_call : Text → Event → Bool
has_call call event = elim (field_of (codes "call") event.fields) [
  | none ↦ false
  | some c ↦ same c call
]

-- The last event that begins this call.
abbrev pub last_begin : Text → List Event → Option Event
last_begin call [] = none
last_begin call (event ∷ events) = elim (last_begin call events) [
  | some later ↦ some later
  | none ↦ elim (phase_of event) [
    | some begin ↦ if has_call call event then some event else none
    | _ ↦ none
  ]
]

-- Some event is a result of this call.
abbrev pub has_result : Text → List Event → Bool
has_result call [] = false
has_result call (event ∷ events) =
    (elim (phase_of event) [ some result ↦ has_call call event | _ ↦ false ])
    || has_result call events

abbrev or_else {ℓ} : {A : Type ℓ} → Option A → Option A → Option A
or_else none other = other
or_else (some a) other = some a

key_found :
    (o : Option Text) {v : Text}
    → (elim o [ none ↦ err no_key | some w ↦ ok w ]) ≡ ok v
    → o ≡ some v
key_found none h = cc
key_found (some w) h = ap some (ok_injective h)

call_of_ok :
    (event : Event) {call : Text}
    → call_of event ≡ ok call
    → (c : Text) → has_call c event ≡ same call c
call_of_ok event h c = rw (key_found (field_of (codes "call") event.fields) h, has_call) refl

any-snoc :
    (p : Event → Bool) (events : List Event) (event : Event)
    → any p (events ++ event ∷ []) ≡ (any p events || p event)
any-snoc p [] event = ground arith
any-snoc p (x ∷ events) event = ground (arith, any-snoc p events event)

-- What the first loop has done to the begins and the results.
record IsSorted (calls : Calls) (events : List Event) (out : Calls) : Type 0 where
  begun : (c : Text) → find c out.begins ≡ or_else (last_begin c events) (find c calls.begins)
  ended :
      (c : Text)
      → any (has_call c) out.results ≡ (any (has_call c) calls.results || has_result c events)
  fresh : AreFresh calls.begins → AreFresh out.begins

or_assoc : (a b c : Bool) → ((a || b) || c) ≡ (a || (b || c))
or_assoc true b c = refl
or_assoc false b c = refl

or_false : (a : Bool) → a ≡ (a || false)
or_false true = refl
or_false false = refl

-- One event more.
begun_cons :
    (calls : Calls) (event : Event) (events : List Event) {out : Calls} {call : Text}
    → phase_of event ≡ some begin
    → call_of event ≡ ok call
    → IsSorted (record calls { begins = put call event calls.begins }) events out
    → IsSorted calls (event ∷ events) out
begun_cons calls event events {out} {call} p k s = record {
  begun = λ c. s.begun c ∙ later c (last_begin c events) refl;
  ended = λ c. s.ended c ∙ ap (λ (b : Bool). any (has_call c) calls.results || b) (rw p refl);
  fresh = λ f. s.fresh (put-AreFresh call event calls.begins f);
}
  where
    split :
        (c : Text) (b : Bool)
        → (if b then some event else find c calls.begins)
          ≡ or_else (if b then some event else none) (find c calls.begins)
    split c true = refl
    split c false = refl

    later :
        (c : Text) (o : Option Event)
        → last_begin c events ≡ o
        → or_else o (find c (put call event calls.begins))
          ≡ or_else (last_begin c (event ∷ events)) (find c calls.begins)
    later c (some e) q = rw q refl
    later c none q =
        rw (q, p, call_of_ok event k c) (find-put c call event calls.begins ∙ split c (same call c))

result_cons :
    (calls : Calls) (event : Event) (events : List Event) {out : Calls}
    → phase_of event ≡ some result
    → IsSorted (record calls { results = calls.results ++ event ∷ [] }) events out
    → IsSorted calls (event ∷ events) out
result_cons calls event events {out} p s = record {
  begun = λ c.
      s.begun c
      ∙ ap (λ (o : Option Event). or_else o (find c calls.begins))
          (skip c (last_begin c events) refl);
  ended = λ c.
      s.ended c
      ∙ ap (λ (b : Bool). b || has_result c events) (any-snoc (has_call c) calls.results event)
      ∙ or_assoc (any (has_call c) calls.results) (has_call c event) (has_result c events)
      ∙ ap (λ (b : Bool). any (has_call c) calls.results || b) (rw p refl);
  fresh = s.fresh;
}
  where
    skip :
        (c : Text) (o : Option Event)
        → last_begin c events ≡ o
        → last_begin c events ≡ last_begin c (event ∷ events)
    skip c (some e) q = rw q refl
    skip c none q = rw (q, p) refl

sort_calls-IsSorted :
    (calls : Calls) (events : List Event) {out : Calls}
    → sort_calls calls events ≡ ok out
    → IsSorted calls events out
unfolding sort_calls
sort_calls-IsSorted calls [] h = subst (IsSorted calls []) (ok_injective h) (record {
  begun = λ c. refl;
  ended = λ c. or_false (any (has_call c) calls.results);
  fresh = λ f. f;
})
sort_calls-IsSorted calls (event ∷ events) {out} h =
    at (phase_of event) (λ next. sort_calls-IsSorted next events) refl h
  where
    at :
        (o : Option Phase)
        → ((next : Calls) → sort_calls next events ≡ ok out → IsSorted next events out)
        → phase_of event ≡ o
        → sort_calls calls (event ∷ events) ≡ ok out
        → IsSorted calls (event ∷ events) out
    at none again p k = unfold sort_calls in cc (rw (p, sort_calls) at k)
    at (some begin) again p k =
        let (call, a, rest) =
          >>=-eq-ok (call_of event)
            (λ c. sort_calls (record calls { begins = put c event calls.begins }) events)
            (unfold sort_calls in rw (p, sort_calls) at k) in
        begun_cons calls event events p a
          (again (record calls { begins = put call event calls.begins }) rest)
    at (some result) again p k = result_cons calls event events p (
        again (record calls { results = calls.results ++ event ∷ [] })
          (unfold sort_calls in rw (p, sort_calls) at k))

-- The begins without the calls of the results.
record IsPopped (begins : List (Text × Event)) (results : List Event) (left : List (Text × Event))
    : Type 0 where
  kept : (c : Text) → find c left ≡ (if any (has_call c) results then none else find c begins)
  fresh : AreFresh begins → AreFresh left

pop_results-IsPopped :
    (begins : List (Text × Event)) (results : List Event) {left : List (Text × Event)}
    → pop_results begins results ≡ ok left
    → IsPopped begins results left
unfolding pop_results
pop_results-IsPopped begins [] h =
    subst (IsPopped begins []) (ok_injective h) (record { kept = λ c. refl; fresh = λ f. f })
pop_results-IsPopped begins (event ∷ results) h =
    let (call, a, rest) =
      >>=-eq-ok (call_of event) (λ c. pop_results (remove c begins) results) h in
    let p = pop_results-IsPopped (remove call begins) results rest in
    record {
      kept = λ c.
          p.kept c
          ∙ take c call (any (has_call c) results) (has_call c event) (call_of_ok event a c);
      fresh = λ f. p.fresh (remove-AreFresh call begins f);
    }
  where
    take :
        (c call : Text) (later now : Bool)
        → now ≡ same call c
        → (if later then none else find c (remove call begins))
          ≡ (if now || later then none else find c begins)
    take c call true true e = refl
    take c call true false e = refl
    take c call false true e = rw (find-remove c call begins, ← e) refl
    take c call false false e = rw (find-remove c call begins, ← e) refl

-- What is left of a sorted list of events: the last begin of each call that has no result.
pub record IsLeft (events : List Event) (left : List (Text × Event)) : Type 0 where
  pub open_call :
      (c : Text) → find c left ≡ (if has_result c events then none else last_begin c events)
  pub fresh : AreFresh left

pub sorted_calls-IsLeft :
    (events : List Event) {calls : Calls} {left : List (Text × Event)}
    → sort_calls (record { begins = []; results = [] }) events ≡ ok calls
    → pop_results calls.begins calls.results ≡ ok left
    → IsLeft events left
unfolding find
sorted_calls-IsLeft events {calls} {left} h k =
    let s = sort_calls-IsSorted (record { begins = []; results = [] }) events h in
    let p = pop_results-IsPopped calls.begins calls.results k in
    record {
      open_call = λ c.
          p.kept c
          ∙ ap (λ (b : Bool). if b then none else find c calls.begins) (s.ended c)
          ∙ ap (λ (o : Option Event). if has_result c events then none else o)
              (s.begun c ∙ plain (last_begin c events));
      fresh = p.fresh (s.fresh tt);
    }
  where
    plain : (o : Option Event) → or_else o none ≡ o
    plain none = refl
    plain (some e) = refl
