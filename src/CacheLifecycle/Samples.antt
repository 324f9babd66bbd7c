-- ===== src/CacheLifecycle/Samples.antt =====
-- The lifecycle analysis at one log.
use my_ad.Prelude.{
  ℕ, ◌+◌, String, ◌≡◌, refl, true, false, Option, none, some, List, [], ◌∷◌, ok, str_eq, contains,
}
use my_ad.Prelude.Int.{pos}
use my_ad.CacheLifecycle.Event.{
  Operation, create_cache, destroy_cache, graphics, enter, return, Phase, Event, Operation-discrete,
  same_operation,
}
use my_ad.CacheLifecycle.Replay.{
  same_key, Pending, Replay, fresh, add, discard, note, destroy_during_use, in_use, filter_use,
  cache_notes, enter_notes, record_overlap, enter_call, find_pending, drop_pending, created, effect,
  return_call, step, replay,
}
use my_ad.CacheLifecycle.Report.{Marker, anomaly, verdict}
use my_ad.CacheLifecycle.Balance.{open_calls, enters, returns, replay-balance}
use my_ad.CacheLifecycle.Anomaly.{destroy_in_use-anomaly}

abbrev at : ℕ → Operation → Phase → String → Event
at n operation phase thread = record {
  number = n;
  operation = operation;
  phase = phase;
  thread = thread;
  cache = "0xc1";
  other = "0x0";
  result = pos 0;
}

abbrev log : List (Option Event)
log =
    some (at 1 create_cache enter "t1")
    ∷ some (at 2 create_cache return "t1")
    ∷ some (at 3 graphics enter "t2")
    ∷ []

abbrev in_progress : Pending
in_progress = record {
  sequence = 3;
  operation = graphics;
  thread = "t2";
  cache = "0xc1";
  submitted_cache = "0xc1";
}

abbrev replayed : Replay
replayed = record {
  pending = in_progress ∷ [];
  live = "0xc1" ∷ [];
  live_objects = λ _. [];
  queued_objects = λ _. [];
  intervals = [];
  invalid = [];
  creation_count = 1;
}

log_accepted : replay false 1 log fresh ≡ ok replayed
unfolding replay step enter_call return_call effect created find_pending drop_pending record_overlap
    enter_notes cache_notes note add discard filter_use same_key same_operation Operation-discrete
    str_eq contains
log_accepted = refl

replay-balance_example :
    open_calls ("t2", graphics) [] + enters ("t2", graphics) log
    ≡ open_calls ("t2", graphics) (in_progress ∷ []) + returns ("t2", graphics) log
replay-balance_example = replay-balance false 1 log fresh replayed ("t2", graphics) log_accepted

-- The compilation above is still in progress when another thread destroys its cache.
abbrev destruction : Event
destruction = at 4 destroy_cache enter "t1"

abbrev fault : Marker
fault = record {
  kind = graphics;
  thread = "t2";
  cache = "0xc1";
  submitted_cache = none;
  module_handle = none;
  layout_handle = none;
  render_pass = none;
  stages = [];
}

abbrev afterwards : Replay
afterwards = record replayed {
  pending =
      in_progress
      ∷ record {
        sequence = 4;
        operation = destroy_cache;
        thread = "t1";
        cache = "0xc1";
        submitted_cache = "0xc1";
      }
      ∷ [];
  invalid = record { sequence = 4; reason = destroy_during_use; handle = "0xc1" } ∷ [];
}

destruction_accepted : replay false 4 (some destruction ∷ []) replayed ≡ ok afterwards
unfolding replay step enter_call return_call effect created find_pending drop_pending record_overlap
    enter_notes cache_notes note add discard filter_use same_key same_operation Operation-discrete
    str_eq contains
destruction_accepted = refl

used : in_use "0xc1" replayed.pending ≡ true
unfolding str_eq
used = refl

destroy_in_use-anomaly_example : verdict false fault afterwards ≡ anomaly
destroy_in_use-anomaly_example =
    destroy_in_use-anomaly false false 4 destruction [] replayed afterwards fault refl refl used
      destruction_accepted
