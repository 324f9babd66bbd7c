-- ===== src/CacheLifecycle/Report.antt =====
-- analyze_vulkan_cache_lifecycle.py: what `analyze` reports of a replayed log.
use my_ad.Prelude.{
  ℕ, String, Bool, true, false, not, ◌&&◌, ◌||◌, Option, none, some, List, [], ◌∷◌, Result, ok, err,
  ◌>>=◌, ◌>>◌, require, str_eq, contains, is_empty, any, ◌==◌, length, leb, if◌then◌else◌,
}
use my_ad.CacheLifecycle.Event.{
  Kind, module_, layout, pass, create, destroy, Operation, graphics, object, Event, same_operation,
}
use my_ad.CacheLifecycle.Replay.{Pending, Replay, ReplayFault, fresh, replay}

-- What the driver-entry analysis and its marker say of the fault. `stages` holds the module of each
-- stage record of three parts.
pub record Marker : Type 0 where
  pub kind : Operation
  pub thread : String
  pub cache : String
  pub submitted_cache : Option String
  pub module_handle : Option String
  pub layout_handle : Option String
  pub render_pass : Option String
  pub stages : List String

pub data ReportFault : Type 0 where
  unbounded_events : ReportFault
  in_replay : ReplayFault → ReportFault
  no_matching_operation : ReportFault
  submitted_disagree : ReportFault
  no_lifecycle_event : ReportFault

pub data Verdict : Type 0 where
  anomaly history : Verdict

pub record Report : Type 0 where
  pub status : Verdict
  pub fault_operation : Pending
  pub missing : List (Kind × String)
  pub state : Replay

abbrev has_submitted : Marker → Bool
has_submitted m = elim m.submitted_cache [ none ↦ false | some _ ↦ true ]

abbrev submitted : Marker → String
submitted m = elim m.submitted_cache [ none ↦ m.cache | some s ↦ s ]

is_fault : Marker → Pending → Bool
is_fault m p =
    same_operation p.operation m.kind && (str_eq p.cache m.cache && str_eq p.thread m.thread)

matching : Marker → List Pending → List Pending
matching m [] = []
matching m (p ∷ pending) = let rest = matching m pending in if is_fault m p then p ∷ rest else rest

abbrev unique : List Pending → Result ReportFault Pending
unique (p ∷ []) = ok p
unique _ = err no_matching_operation

-- `entry.get(name)` where the value is truthy
abbrev handle_of : Kind → Option String → List (Kind × String)
handle_of kind none = []
handle_of kind (some handle) = if str_eq handle "" then [] else (kind, handle) ∷ []

modules_of : List String → List (Kind × String)
modules_of [] = []
modules_of (handle ∷ stages) = (module_, handle) ∷ modules_of stages

abbrev join : List (Kind × String) → List (Kind × String) → List (Kind × String)
join [] ys = ys
join (x ∷ xs) ys = x ∷ join xs ys

unfoldable pub fault_handles : Marker → List (Kind × String)
unfolding modules_of
fault_handles m = join (handle_of module_ m.module_handle) (
    join (handle_of layout m.layout_handle) (
      if same_operation m.kind graphics
      then join (handle_of pass m.render_pass) (modules_of m.stages)
      else []))

-- the handles of the fault that are not live
unfoldable pub missing_objects : List (Kind × String) → Replay → List (Kind × String)
missing_objects [] s = []
missing_objects ((kind, handle) ∷ rest) s =
    let more = missing_objects rest s in
    if contains handle (s.live_objects kind) then more else (kind, handle) ∷ more

-- The verdict on a replay: `observed` says that some object call stands in the log.
unfoldable pub verdict : Bool → Marker → Replay → Verdict
verdict observed m s =
    let fault_cache_live = str_eq m.cache "0x0" || contains m.cache s.live in
    let missing = if observed then missing_objects (fault_handles m) s else [] in
    if not (is_empty s.invalid) || (not fault_cache_live || not (is_empty missing))
    then anomaly
    else history

-- `"_create" in line or "_destroy" in line` of some line; a live object has a line that created it
is_object_line : Option Event → Bool
is_object_line none = false
is_object_line (some e) = elim e.operation [
  | object _ create ↦ true
  | object _ destroy ↦ true
  | _ ↦ false
]

-- `EVENT.fullmatch(lines[sequence - 1])[6] == "0x0"`
null_other : ℕ → List (Option Event) → Bool
null_other sequence [] = false
null_other sequence (none ∷ lines) = null_other sequence lines
null_other sequence (some e ∷ lines) =
    let rest = null_other sequence lines in
    if e.number == sequence then str_eq e.other "0x0" else rest

-- `analyze`, from the lines on
unfoldable pub analyze : Marker → List (Option Event) → Result ReportFault Report
unfolding is_fault matching is_object_line null_other
analyze m lines = do
  let observed = any is_object_line lines
  require (leb 1 (length lines) && leb (length lines) 12000) unbounded_events
  s ← elim (replay (has_submitted m) 1 lines fresh) [ ok s ↦ ok s | err e ↦ err (in_replay e) ]
  p ← unique (matching m s.pending)
  require (str_eq p.submitted_cache (submitted m) || str_eq (submitted m) "0x0") submitted_disagree
  require (not (has_submitted m && str_eq (submitted m) "0x0") || null_other p.sequence lines)
      no_lifecycle_event
  ok (record {
    status = verdict observed m s;
    fault_operation = p;
    missing = if observed then missing_objects (fault_handles m) s else [];
    state = s;
  })
