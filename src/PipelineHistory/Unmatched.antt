-- ===== src/PipelineHistory/Unmatched.antt =====
-- analyze_vulkan_pipeline_history.py: what the report says of the events.
use my_ad.Prelude.{
  ℕ, suc, ◌+◌, ◌≤◌, ◌≡◌, ◌↔◌, refl, sym, ap, ◌∙◌, subst, Bool, true, false, not, ◌&&◌, ◌||◌, none,
  some, List, [], ◌∷◌, ok, >>=-eq-ok, require-then, ok_injective, Bool-cases, inl, inr,
  if◌then◌else◌, any, all, length, leb, ◌==◌, ==→eq, arith, Among,
}
use my_ad.Prelude.Int.{ℤ, pos, ltb_ℤ, leb_ℤ}
use my_ad.PyText.{Text, same, Dict, find}
use my_ad.PyText.Laws.{same_eq, same_refl, AreFresh, find-cons_same, find-cons_other}
use my_ad.PipelineHistory.Record.{
  too_many, incomplete, state_without_begin, no_target_begin, unordered, Event, Scan,
}
use my_ad.PipelineHistory.History.{
  int_at, Bounds, check_sequence, sort_calls, pop_results, is_graphics, is_begin,
  has_graphics_begin, target_events, Unmatched, describe, insert_unmatched, unmatched_graphics,
  Trigger, is_checkpoint, History, is_sortable, report,
}
use my_ad.PipelineHistory.Matching.{last_begin, has_result, IsLeft, sorted_calls-IsLeft}

-- The events carry the numbers from `sequence` on.
abbrev pub AreNumbered : ℕ → List Event → Type 0
AreNumbered sequence [] = Unit
AreNumbered sequence (event ∷ events) =
    (int_at "event" event.fields ≡ ok (pos sequence)) × AreNumbered (suc sequence) events

same_int : (n : ℤ) (k : ℕ) → not (ltb_ℤ n (pos k)) && not (ltb_ℤ (pos k) n) ≡ true → n ≡ pos k
same_int n k h = ground arith

check_sequence-AreNumbered :
    (sequence : ℕ) (events : List Event)
    → check_sequence sequence events ≡ ok tt
    → AreNumbered sequence events
unfolding check_sequence
check_sequence-AreNumbered sequence [] h = tt
check_sequence-AreNumbered sequence (event ∷ events) h =
    let (n, a, h1) = >>=-eq-ok (int_at "event" event.fields) _ h in
    let (e, h2) =
      (require-then (not (ltb_ℤ n (pos sequence)) && not (ltb_ℤ (pos sequence) n)) incomplete
          (check_sequence (suc sequence) events)).0
        h1 in
    (a ∙ ap ok (same_int n sequence e), check_sequence-AreNumbered (suc sequence) events h2)

insert_in :
    (u v : Unmatched) (rest : List Unmatched)
    → Among v (insert_unmatched u rest) ↔ Among v (u ∷ rest)
unfolding insert_unmatched
insert_in u v [] = (λ m. m, λ m. m)
insert_in u v (w ∷ rest) = elim (Bool-cases (leb_ℤ u.event w.event)) [
  | inl e ↦ rw e (λ m. m, λ m. m)
  | inr e ↦
      let (to, from) = insert_in u v rest in
      rw e (
        λ m. elim m [
          | inl s ↦ inr (inl s)
          | inr n ↦ elim (to n) [ inl s ↦ inl s | inr k ↦ inr (inr k) ]
        ],
        λ m. elim m [
          | inl s ↦ inr (from (inl s))
          | inr n ↦ elim n [ inl s ↦ inl s | inr k ↦ inr (from (inr k)) ]
        ],
      )
]

-- The record describes the begin that is left of some call.
pub record IsOpenCall (scan : Scan) (left : List (Text × Event)) (u : Unmatched) : Type 0 where
  pub call : Text
  pub event : Event
  pub left_of : find call left ≡ some event
  pub graphics : is_graphics event ≡ true
  pub described : describe scan event ≡ ok u

unmatched_graphics-yes :
    (scan : Scan) (call : Text) (event : Event) (left : List (Text × Event)) {out : List Unmatched}
    → is_graphics event ≡ true
    → unmatched_graphics scan ((call, event) ∷ left) ≡ ok out
    → (u : Unmatched) × (rest : List Unmatched) × (describe scan event ≡ ok u)
      × (unmatched_graphics scan left ≡ ok rest)
      × (insert_unmatched u rest ≡ out)
unfolding unmatched_graphics
unmatched_graphics-yes scan call event left g h =
    let (u, a, h1) = >>=-eq-ok (describe scan event) _ (rw (g, unmatched_graphics) at h) in
    let (rest, b, h2) = >>=-eq-ok (unmatched_graphics scan left) _ h1 in
    (u, rest, a, b, ok_injective h2)

unmatched_graphics-no :
    (scan : Scan) (call : Text) (event : Event) (left : List (Text × Event)) {out : List Unmatched}
    → is_graphics event ≡ false
    → unmatched_graphics scan ((call, event) ∷ left) ≡ ok out
    → unmatched_graphics scan left ≡ ok out
unfolding unmatched_graphics
unmatched_graphics-no scan call event left g h = rw (g, unmatched_graphics) at h

-- Of the rest of the begins, whose calls are other ones.
widen :
    (scan : Scan) (call : Text) (event : Event) (left : List (Text × Event)) (u : Unmatched)
    → find call left ≡ none
    → IsOpenCall scan left u
    → IsOpenCall scan ((call, event) ∷ left) u
widen scan call event left u n o = record {
  call = o.call;
  event = o.event;
  left_of = elim (Bool-cases (same call o.call)) [
    | inl e ↦ cc (ap (λ (x : Text). find x left) (same_eq call o.call e), n, o.left_of)
    | inr e ↦ find-cons_other o.call call event left e ∙ o.left_of
  ];
  graphics = o.graphics;
  described = o.described;
}

unmatched_sound :
    (scan : Scan) (left : List (Text × Event)) {out : List Unmatched}
    → AreFresh left
    → unmatched_graphics scan left ≡ ok out
    → (u : Unmatched) → Among u out
    → IsOpenCall scan left u
unfolding unmatched_graphics
unmatched_sound scan [] f h u m = elim (subst (Among u) (sym (ok_injective h)) m) [ ]
unmatched_sound scan ((call, event) ∷ left) f h u m = elim (Bool-cases (is_graphics event)) [
  | inl g ↦
      let (v, rest, a, b, e) = unmatched_graphics-yes scan call event left g h in
      elim ((insert_in v u rest).0 (subst (Among u) (sym e) m)) [
        | inl same_one ↦ record {
          call = call;
          event = event;
          left_of = find-cons_same call call event left (same_refl call);
          graphics = g;
          described = a ∙ ap ok (sym same_one);
        }
        | inr n ↦ widen scan call event left u f.0 (unmatched_sound scan left f.1 b u n)
      ]
  | inr g ↦
      widen scan call event left u f.0
        (unmatched_sound scan left f.1 (unmatched_graphics-no scan call event left g h) u m)
]

unmatched_complete :
    (scan : Scan) (left : List (Text × Event)) {out : List Unmatched}
    → unmatched_graphics scan left ≡ ok out
    → (c : Text) (e : Event) → find c left ≡ some e
    → is_graphics e ≡ true
    → (u : Unmatched) × (describe scan e ≡ ok u) × Among u out
unfolding find
unmatched_complete scan [] h c e o g = cc
unmatched_complete scan ((call, event) ∷ left) {out} h c e o g = elim (Bool-cases (same call c)) [
  | inl s ↦
      let here = some_injective (rw s at o) in
      let (v, rest, a, b, i) =
        unmatched_graphics-yes scan call event left (ap is_graphics here ∙ g) h in
      (v, ap (describe scan) (sym here) ∙ a, subst (Among v) i ((insert_in v v rest).1 (inl refl)))
  | inr s ↦ elim (Bool-cases (is_graphics event)) [
    | inl y ↦
        let (v, rest, a, b, i) = unmatched_graphics-yes scan call event left y h in
        let (u, d, m) = unmatched_complete scan left b c e (rw s at o) g in
        (u, d, subst (Among u) i ((insert_in v u rest).1 (inr m)))
    | inr n ↦
        unmatched_complete scan left (unmatched_graphics-no scan call event left n h) c e
          (rw s at o) g
  ]
]
  where
    some_injective : {x y : Event} → some x ≡ some y → x ≡ y
    some_injective e = cc

-- The history of an accepted report.
pub record IsHistory (bounds : Bounds) (scan : Scan) (history : History) : Type 0 where
  -- The events are numbered from the first to the last number of the header, none missing.
  pub numbered : AreNumbered bounds.first scan.events
  pub complete : length scan.events + bounds.first ≡ bounds.last + 1
  pub bounded : length scan.events ≤ 4096
  -- An unmatched creation is the last begin of a graphics call that has no result,
  pub sound :
      (u : Unmatched)
      → Among u history.unmatched
      → (call : Text) × (event : Event) × (last_begin call scan.events ≡ some event)
        × (has_result call scan.events ≡ false)
        × (is_graphics event ≡ true)
        × (describe scan event ≡ ok u)
  -- and every such begin is one.
  pub covers :
      (call : Text) (event : Event)
      → last_begin call scan.events ≡ some event
      → has_result call scan.events ≡ false
      → is_graphics event ≡ true
      → (u : Unmatched) × (describe scan event ≡ ok u) × Among u history.unmatched

-- What `IsLeft` says of a call, read in both directions.
left_iff :
    {events : List Event} {left : List (Text × Event)}
    → IsLeft events left
    → (call : Text) (event : Event)
    → (find call left ≡ some event)
      ↔ ((last_begin call events ≡ some event) × (has_result call events ≡ false))
left_iff {events} l call event = elim (Bool-cases (has_result call events)) [
  | inl r ↦ (λ h. cc (l.open_call call, r, h), λ (b, n). cc (r, n))
  | inr r ↦ (
    λ h. (
      sym (l.open_call call ∙ ap (λ (x : Bool). if x then none else last_begin call events) r) ∙ h,
      r,
    ),
    λ (b, n).
        l.open_call call ∙ ap (λ (x : Bool). if x then none else last_begin call events) r ∙ b,
  )
]

-- An accepted report is of at most 4096 events that carry the numbers of the header without a gap;
-- its unmatched creations are exactly the last begins of the graphics calls without a result,
-- wherever the results stand among the events.
pub report-IsHistory :
    (target : Text) (trigger : Trigger) (bounds : Bounds) (scan : Scan) (history : History)
    → report target trigger bounds scan ≡ ok history
    → IsHistory bounds scan history
unfolding report
report-IsHistory target trigger bounds scan history h =
    let (small, h1) = (require-then (leb (length scan.events) 4096) too_many _).0 h in
    let (count, h2) =
      (require-then (length scan.events + bounds.first == bounds.last + 1) incomplete _).0 h1 in
    let (_, numbered, h3) = >>=-eq-ok (check_sequence bounds.first scan.events) _ h2 in
    let (calls, sorted, h4) =
      >>=-eq-ok (sort_calls (record { begins = []; results = [] }) scan.events) _ h3 in
    let (left, popped, h5) = >>=-eq-ok (pop_results calls.begins calls.results) _ h4 in
    let (_, h6) =
      (require-then (all (λ (s : Text × Dict). has_graphics_begin s.0 scan.events) scan.states)
          state_without_begin _).0
        h5 in
    let (_, h7) =
      (require-then (not (is_checkpoint trigger) || any is_begin (target_events target scan.events))
          no_target_begin _).0
        h6 in
    let (unmatched, found, h8) = >>=-eq-ok (unmatched_graphics scan left) _ h7 in
    let (_, h9) = (require-then (is_sortable "thread" scan.events) unordered _).0 h8 in
    let (_, h10) = (require-then (is_sortable "cache" scan.events) unordered _).0 h9 in
    let l = sorted_calls-IsLeft scan.events sorted popped in
    let e = ap (λ (r : History). r.unmatched) (ok_injective h10) in
    record {
      numbered = check_sequence-AreNumbered bounds.first scan.events numbered;
      complete = ==→eq (length scan.events + bounds.first) (bounds.last + 1) count;
      bounded = small_of (length scan.events) small;
      sound = λ u m.
          let o = unmatched_sound scan left l.fresh found u (subst (Among u) (sym e) m) in
          let (b, n) = (left_iff l o.call o.event).0 o.left_of in
          (o.call, o.event, b, n, o.graphics, o.described);
      covers = λ call event b n g.
          let (u, d, m) =
            unmatched_complete scan left found call event ((left_iff l call event).1 (b, n)) g in
          (u, d, subst (Among u) e m);
    }
  where
    small_of : (n : ℕ) → leb n 4096 ≡ true → n ≤ 4096
    small_of n k = ground arith
