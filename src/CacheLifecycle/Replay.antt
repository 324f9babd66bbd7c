-- ===== src/CacheLifecycle/Replay.antt =====
-- analyze_vulkan_cache_lifecycle.py: the loop of `analyze` over the events.
use my_ad.Prelude.{
  ℕ, ◌+◌, String, Bool, true, false, not, ◌&&◌, Option, none, some, List, [], ◌∷◌, ◌++◌, Result, ok,
  err, ◌>>=◌, ◌>>◌, require, str_eq, contains, any, is_empty, ◌==◌, if◌then◌else◌,
}
use my_ad.Prelude.Int.{ℤ, pos, negsuc}
use my_ad.CacheLifecycle.Event.{
  Kind, create, enqueue, destroy, Operation, create_cache, destroy_cache, merge, get_data, graphics,
  compute, object, enter, return, Event, same_operation, same_kind,
}

abbrev pub Key : Type 0
Key = String × Operation

unfoldable pub same_key : Key → Key → Bool
same_key a b = str_eq a.0 b.0 && same_operation a.1 b.1

-- A call that has begun and not returned.
pub record Pending : Type 0 where
  pub sequence : ℕ
  pub operation : Operation
  pub thread : String
  pub cache : String
  pub submitted_cache : String

abbrev pub key_of : Pending → Key
key_of p = (p.thread, p.operation)

pub data Reason : Type 0 where
  unobserved_enqueue unobserved_cache unobserved_source destroy_during_use : Reason
  duplicate_create duplicate_object_create unobserved_object_destroy : Reason

-- An event that breaks the lifetime rules; its kind of object shows in the reason and the event.
pub record Invalid : Type 0 where
  pub sequence : ℕ
  pub reason : Reason
  pub handle : String

-- A use that begins while others are in progress; the script lists the operations of the others
-- sorted and without repeats.
pub record Interval : Type 0 where
  pub sequence : ℕ
  pub cache : String
  pub operation : Operation
  pub concurrent : List Operation

abbrev pub Objects : Type 0
Objects = Kind → List String

pub record Replay : Type 0 where
  pub pending : List Pending
  pub live : List String
  pub live_objects : Objects
  pub queued_objects : Objects
  pub intervals : List Interval
  pub invalid : List Invalid
  pub creation_count : ℕ

pub data ReplayFault : Type 0 where
  invalid_event nested unpaired_return changed_handle : ℕ → ReplayFault

abbrev pub fresh : Replay
fresh = record {
  pending = [];
  live = [];
  live_objects = λ _. [];
  queued_objects = λ _. [];
  intervals = [];
  invalid = [];
  creation_count = 0;
}

-- `set.add` and `set.discard`
unfoldable pub add : String → List String → List String
add handle set = if contains handle set then set else handle ∷ set

unfoldable pub discard : String → List String → List String
discard handle [] = []
discard handle (x ∷ set) =
    let rest = discard handle set in if str_eq handle x then rest else x ∷ rest

abbrev update : Kind → (List String → List String) → Objects → Objects
update kind f objects k = if same_kind kind k then f (objects k) else objects k

abbrev pub null_handle : String → Bool
null_handle handle = str_eq handle "0x0"

-- `if condition: invalid.append(…)`
unfoldable pub note : Bool → ℕ → Reason → String → Replay → Replay
note condition sequence reason handle s =
    if condition
    then record s {
      invalid = s.invalid ++ record { sequence = sequence; reason = reason; handle = handle } ∷ [];
    }
    else s

abbrev pub uses_cache : Operation → Bool
uses_cache destroy_cache = true
uses_cache merge = true
uses_cache get_data = true
uses_cache graphics = true
uses_cache compute = true
uses_cache _ = false

abbrev pub is_use : Operation → Bool
is_use merge = true
is_use get_data = true
is_use graphics = true
is_use compute = true
is_use _ = false

abbrev is_pipeline : Operation → Bool
is_pipeline graphics = true
is_pipeline compute = true
is_pipeline _ = false

abbrev pub is_destroy : Operation → Bool
is_destroy destroy_cache = true
is_destroy _ = false

abbrev pub is_merge : Operation → Bool
is_merge merge = true
is_merge _ = false

unfoldable pub enqueue_object : ℕ → Kind → Event → Replay → Replay
enqueue_object sequence kind e s =
    let seen = contains e.cache (s.live_objects kind) in
    let unobserved : Bool = elim e.phase [ enter ↦ true | return ↦ not seen ] in
    let s' = note unobserved sequence unobserved_enqueue e.cache s in
    record s' { queued_objects = update kind (add e.cache) s'.queued_objects }

unfoldable pub filter_use : Key → String → List Pending → List Operation
filter_use key cache [] = []
filter_use key cache (p ∷ pending) =
    let rest = filter_use key cache pending in
    if not (same_key (key_of p) key)
      && (str_eq p.cache cache && (not (null_handle cache) && is_use p.operation))
    then p.operation ∷ rest
    else rest

-- whether some call in progress uses the cache
abbrev pub in_use : String → List Pending → Bool
in_use cache pending = any (λ p. str_eq p.cache cache && is_use p.operation) pending

-- the tests of a call that begins, before it is recorded: its cache and the source of a merge
unfoldable pub cache_notes : ℕ → Event → Replay → Replay
cache_notes sequence e s =
    let a =
      note (uses_cache e.operation && (not (null_handle e.cache) && not (contains e.cache s.live)))
        sequence unobserved_cache e.cache s in
    note (is_merge e.operation && (not (null_handle e.other) && not (contains e.other a.live)))
      sequence unobserved_source e.other a

-- and, of a cache that is destroyed, that no call is using it
unfoldable pub enter_notes : ℕ → Event → Replay → Replay
enter_notes sequence e s =
    let b = cache_notes sequence e s in
    note (is_destroy e.operation && in_use e.cache b.pending) sequence destroy_during_use e.cache b

unfoldable pub record_overlap : ℕ → Event → Replay → Replay
record_overlap sequence e s =
    let concurrent = filter_use (e.thread, e.operation) e.cache s.pending in
    if is_use e.operation && not (is_empty concurrent)
    then record s {
      intervals =
          s.intervals
          ++ record {
            sequence = sequence;
            cache = e.cache;
            operation = e.operation;
            concurrent = concurrent;
          }
            ∷ [];
    }
    else s

abbrev pub entry_for : Bool → ℕ → Event → Pending
entry_for has_submitted sequence e = record {
  sequence = sequence;
  operation = e.operation;
  thread = e.thread;
  cache = e.cache;
  submitted_cache = if is_pipeline e.operation && has_submitted then e.other else e.cache;
}

abbrev pub is_open : Key → List Pending → Bool
is_open key pending = any (λ p. same_key (key_of p) key) pending

unfoldable pub enter_call : Bool → ℕ → Event → Replay → Result ReplayFault Replay
enter_call has_submitted sequence e s =
    let noted = enter_notes sequence e s in
    if is_open (e.thread, e.operation) s.pending
    then err (nested sequence)
    else ok (
        record_overlap sequence e
          (record noted { pending = noted.pending ++ entry_for has_submitted sequence e ∷ [] }))

-- `pending.pop(key, None)`
unfoldable pub find_pending : Key → List Pending → Option Pending
find_pending key [] = none
find_pending key (p ∷ pending) =
    if same_key (key_of p) key then some p else find_pending key pending

unfoldable pub drop_pending : Key → List Pending → List Pending
drop_pending key [] = []
drop_pending key (p ∷ pending) =
    if same_key (key_of p) key then pending else p ∷ drop_pending key pending

abbrev pub is_zero : ℤ → Bool
is_zero (pos n) = n == 0
is_zero (negsuc n) = false

abbrev pub keeps_handle : Operation → Bool
keeps_handle create_cache = false
keeps_handle (object _ create) = false
keeps_handle _ = true

unfoldable pub created : ℕ → Event → Replay → Replay
created sequence e s =
    let s' = note (contains e.cache s.live) sequence duplicate_create e.cache s in
    record s' { live = add e.cache s'.live; creation_count = s'.creation_count + 1 }

unfoldable pub object_created : ℕ → Kind → Event → Replay → Replay
object_created sequence kind e s =
    let s' =
      note (contains e.cache (s.live_objects kind)) sequence duplicate_object_create e.cache s in
    record s' {
      live_objects = update kind (add e.cache) s'.live_objects;
      queued_objects = update kind (discard e.cache) s'.queued_objects;
    }

unfoldable pub object_destroyed : ℕ → Kind → Event → Replay → Replay
object_destroyed sequence kind e s =
    let s' =
      note (not (contains e.cache (s.live_objects kind))) sequence unobserved_object_destroy e.cache
        s in
    record s' {
      live_objects = update kind (discard e.cache) s'.live_objects;
      queued_objects = update kind (discard e.cache) s'.queued_objects;
    }

-- what a call that returns did
unfoldable pub effect : ℕ → Event → Operation → Replay → Replay
effect sequence e create_cache s =
    if is_zero e.result && not (null_handle e.cache) then created sequence e s else s
effect sequence e destroy_cache s =
    if null_handle e.cache then s else record s { live = discard e.cache s.live }
effect sequence e (object kind create) s =
    if null_handle e.cache then s else object_created sequence kind e s
effect sequence e (object kind destroy) s = object_destroyed sequence kind e s
effect sequence e _ s = s

unfoldable pub return_call : ℕ → Event → Replay → Result ReplayFault Replay
return_call sequence e s = elim (find_pending (e.thread, e.operation) s.pending) [
  | none ↦ err (unpaired_return sequence)
  | some start ↦
      if keeps_handle e.operation && not (str_eq e.cache start.cache)
      then err (changed_handle sequence)
      else ok (
          effect sequence e e.operation
            (record s { pending = drop_pending (e.thread, e.operation) s.pending }))
]

abbrev pub step_call : Bool → ℕ → Event → Replay → Result ReplayFault Replay
step_call has_submitted sequence e s = elim e.phase [
  | enter ↦ enter_call has_submitted sequence e s
  | return ↦ return_call sequence e s
]

-- the body of the loop, for a line that matched with its own number
unfoldable pub step : Bool → ℕ → Event → Operation → Replay → Result ReplayFault Replay
step has_submitted sequence e (object kind enqueue) s = ok (enqueue_object sequence kind e s)
step has_submitted sequence e _ s = step_call has_submitted sequence e s

-- A line that does not match is none.
unfoldable pub replay : Bool → ℕ → List (Option Event) → Replay → Result ReplayFault Replay
replay has_submitted sequence [] s = ok s
replay has_submitted sequence (none ∷ lines) s = err (invalid_event sequence)
replay has_submitted sequence (some e ∷ lines) s =
    require (e.number == sequence) (invalid_event sequence)
    >> (step has_submitted sequence e e.operation s >>= λ s'.
        replay has_submitted (sequence + 1) lines s')
