-- ===== src/PipelineHistory/History.antt =====
-- analyze_vulkan_pipeline_history.py: `analyze`. Of its counts by thread and by
-- cache, the exception that their sorting raises is modelled.
use my_ad.Prelude.{
  ℕ, suc, ◌+◌, ◌-◌, String, Bool, true, false, not, ◌&&◌, ◌||◌, Option, none, some, List, [], ◌∷◌,
  ◌++◌, Result, ok, err, ◌>>=◌, ◌>>◌, require, codes, leb, ltb, all, any, length, ◌==◌,
  if◌then◌else◌,
}
use my_ad.Prelude.Int.{ℤ, pos, ltb_ℤ, leb_ℤ}
use my_ad.PyText.{Text, same, Dict, field_of, put, find, remove}
use my_ad.PipelineHistory.Record.{
  HistoryFault, bad_schema, not_snapshot, other_target, bad_trigger, bad_bounds, too_many,
  incomplete, unknown_phase, state_without_begin, no_target_begin, unordered, no_key, int_of, Stage,
  Event, Scan, says, scan_lines, read_header,
}

abbrev pub key_or_fault : String → Dict → Result HistoryFault Text
key_or_fault key dict = elim (field_of (codes key) dict) [ none ↦ err no_key | some v ↦ ok v ]

-- `int(dict[key])`
abbrev pub int_at : String → Dict → Result HistoryFault ℤ
int_at key dict = key_or_fault key dict >>= int_of

-- Integers as far as the bounds go: the sequence numbers are at least 1.
abbrev pub positive : ℤ → Result HistoryFault ℕ
positive (pos (suc n)) = ok (suc n)
positive _ = err bad_bounds

pub record Bounds : Type 0 where
  pub first : ℕ
  pub last : ℕ

-- `first < 1 or last < first or dropped != first - 1`
unfoldable pub bounds_of : ℤ → ℤ → ℤ → Result HistoryFault Bounds
bounds_of first last dropped = do
  f ← positive first
  l ← positive last
  require (not (ltb l f)) bad_bounds
  require (not (ltb_ℤ dropped (pos (f - 1))) && not (ltb_ℤ (pos (f - 1)) dropped)) bad_bounds
  ok (record { first = f; last = l })

-- `any(int(event["event"]) != sequence for sequence, event in enumerate(events, first))`, and the
-- exceptions of the comparisons before it
unfoldable pub check_sequence : ℕ → List Event → Result HistoryFault (Unit {0})
check_sequence sequence [] = ok tt
check_sequence sequence (event ∷ events) = int_at "event" event.fields >>= λ n.
    require (not (ltb_ℤ n (pos sequence)) && not (ltb_ℤ (pos sequence) n)) incomplete
    >> check_sequence (suc sequence) events

pub data Phase : Type 0 where
  begin result : Phase

unfoldable pub phase_of : Event → Option Phase
phase_of event =
    if says (codes "phase") "begin" event.fields
    then some begin
    else (if says (codes "phase") "result" event.fields then some result else none)

abbrev pub call_of : Event → Result HistoryFault Text
call_of event = key_or_fault "call" event.fields

-- The begins by their call, a later one in the place of an earlier one, and the results.
pub record Calls : Type 0 where
  pub begins : List (Text × Event)
  pub results : List Event

unfoldable pub sort_calls : Calls → List Event → Result HistoryFault Calls
sort_calls calls [] = ok calls
sort_calls calls (event ∷ events) = elim (phase_of event) [
  | none ↦ err unknown_phase
  | some begin ↦ call_of event >>= λ call.
      sort_calls (record calls { begins = put call event calls.begins }) events
  | some result ↦ sort_calls (record calls { results = calls.results ++ event ∷ [] }) events
]

-- `for result in results: begins.pop(result["call"], None)`
unfoldable pub pop_results :
    List (Text × Event) → List Event → Result HistoryFault (List (Text × Event))
pop_results begins [] = ok begins
pop_results begins (event ∷ results) =
    call_of event >>= λ call. pop_results (remove call begins) results

abbrev pub is_graphics : Event → Bool
is_graphics event = says (codes "kind") "graphics" event.fields

abbrev pub is_begin : Event → Bool
is_begin event = says (codes "phase") "begin" event.fields

-- whether some graphics begin has this call
unfoldable pub has_graphics_begin : Text → List Event → Bool
has_graphics_begin call events =
    any
      (λ event.
        is_begin event
        && (is_graphics event
            && elim (field_of (codes "call") event.fields) [ none ↦ false | some c ↦ same c call ]))
      events

unfoldable pub is_target : Text → Event → Bool
is_target target event =
    says (codes "kind") "compute" event.fields
    && any (λ (s : Stage). same s.entry target) event.stages

unfoldable pub target_events : Text → List Event → List Event
unfolding is_target
target_events target [] = []
target_events target (event ∷ events) =
    let rest = target_events target events in if is_target target event then event ∷ rest else rest

-- A stage with the hash of its module, if it is known.
pub record HashedStage : Type 0 where
  pub stage : Stage
  pub shader_hash : Option Text

pub record Unmatched : Type 0 where
  pub event : ℤ
  pub call : ℤ
  pub thread : ℤ
  pub cache : Text
  pub layout : Text
  pub render_pass : Text
  pub flags : ℤ
  pub stages : List HashedStage
  pub fixed_state : Option Dict

unfoldable pub hashed : Dict → List Stage → List HashedStage
hashed modules [] = []
hashed modules (s ∷ stages) =
    record { stage = s; shader_hash = field_of s.module_handle modules } ∷ hashed modules stages

unfoldable pub describe : Scan → Event → Result HistoryFault Unmatched
unfolding hashed
describe scan event = do
  n ← int_at "event" event.fields
  call ← int_at "call" event.fields
  thread ← int_at "thread" event.fields
  cache ← key_or_fault "cache" event.fields
  layout ← key_or_fault "layout" event.fields
  render_pass ← key_or_fault "render_pass" event.fields
  flags ← int_at "flags" event.fields
  call_text ← call_of event
  ok (record {
    event = n;
    call = call;
    thread = thread;
    cache = cache;
    layout = layout;
    render_pass = render_pass;
    flags = flags;
    stages = hashed scan.modules event.stages;
    fixed_state = find call_text scan.states;
  })

-- `unmatched_graphics.sort(key=…event)`, which keeps the order of equal ones
unfoldable pub insert_unmatched : Unmatched → List Unmatched → List Unmatched
insert_unmatched u [] = u ∷ []
insert_unmatched u (v ∷ rest) =
    let later = insert_unmatched u rest in if leb_ℤ u.event v.event then u ∷ v ∷ rest else v ∷ later

-- the loop over the begins that are left, and the sort
unfoldable pub unmatched_graphics :
    Scan → List (Text × Event) → Result HistoryFault (List Unmatched)
unfolding insert_unmatched
unmatched_graphics scan [] = ok []
unmatched_graphics scan ((call, event) ∷ begins) =
    if is_graphics event
    then (describe scan event >>= λ u.
        unmatched_graphics scan begins >>= λ rest. ok (insert_unmatched u rest))
    else unmatched_graphics scan begins

pub data Trigger : Type 0 where
  selected_target checkpoint : Trigger

unfoldable pub trigger_of : Dict → Result HistoryFault Trigger
trigger_of header = elim (field_of (codes "trigger") header) [
  | none ↦ ok selected_target
  | some text ↦
      if same text (codes "selected_target")
      then ok selected_target
      else (if same text (codes "checkpoint") then ok checkpoint else err bad_trigger)
]

abbrev pub is_checkpoint : Trigger → Bool
is_checkpoint checkpoint = true
is_checkpoint selected_target = false

pub record History : Type 0 where
  pub trigger : Trigger
  pub event_count : ℕ
  pub result_count : ℕ
  pub module_count : ℕ
  pub fixed_state_count : ℕ
  pub target_events : List Event
  pub unmatched : List Unmatched

unfoldable pub last_line : List Text → Text
last_line [] = []
last_line (line ∷ []) = line
last_line (line ∷ next ∷ lines) = last_line (next ∷ lines)

abbrev first_line : List Text → Text
first_line [] = []
first_line (line ∷ lines) = line

abbrev rest_lines : List Text → List Text
rest_lines [] = []
rest_lines (line ∷ lines) = lines

abbrev has_key : String → Event → Bool
has_key key event = elim (field_of (codes key) event.fields) [ none ↦ false | some v ↦ true ]

-- `sorted({event.get(key) for event in events})` compares None with a text unless every event has the
-- key or none has it.
abbrev pub is_sortable : String → List Event → Bool
is_sortable key events = all (has_key key) events || not (any (has_key key) events)

-- the checks of the events, and the report
unfoldable pub report : Text → Trigger → Bounds → Scan → Result HistoryFault History
unfolding target_events
report target trigger bounds scan = do
  require (leb (length scan.events) 4096) too_many
  require (length scan.events + bounds.first == bounds.last + 1) incomplete
  check_sequence bounds.first scan.events
  calls ← sort_calls (record { begins = []; results = [] }) scan.events
  left ← pop_results calls.begins calls.results
  require (all (λ (s : Text × Dict). has_graphics_begin s.0 scan.events) scan.states)
      state_without_begin
  let targets = target_events target scan.events
  require (not (is_checkpoint trigger) || any is_begin targets) no_target_begin
  unmatched ← unmatched_graphics scan left
  require (is_sortable "thread" scan.events) unordered
  require (is_sortable "cache" scan.events) unordered
  ok (record {
    trigger = trigger;
    event_count = length scan.events;
    result_count = length calls.results;
    module_count = length scan.modules;
    fixed_state_count = length scan.states;
    target_events = targets;
    unmatched = unmatched;
  })

-- `analyze`
unfoldable pub analyze : List Text → Text → Result HistoryFault History
unfolding last_line bounds_of trigger_of
analyze lines target = do
  require
      (leb 4 (length lines)
        && (same (first_line lines) (codes "schema=1") && same (last_line lines) (codes "end=1")))
      bad_schema
  let header = read_header [] (rest_lines lines)
  require (says (codes "phase") "before_compute_create" header) not_snapshot
  require (elim (field_of (codes "target") header) [ none ↦ false | some t ↦ same t target ])
      other_target
  trigger ← trigger_of header
  first ← int_at "first_sequence" header
  last ← int_at "last_sequence" header
  dropped ← int_at "dropped" header
  bounds ← bounds_of first last dropped
  scan ← scan_lines (record { events = []; states = []; modules = [] }) lines
  report target trigger bounds scan
