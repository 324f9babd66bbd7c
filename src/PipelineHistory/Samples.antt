-- ===== src/PipelineHistory/Samples.antt =====
-- A history in which one of two graphics pipelines was created.
use my_ad.Prelude.{◌≡◌, refl, some, List, [], ◌∷◌, ok, codes, is_space}
use my_ad.Prelude.Int.{pos}
use my_ad.PyText.{
  Text, Dict, lstrip, strip, after_prefix, partition, assign, field_of, words, remove, put, find,
  digits, natural, to_int,
}
use my_ad.PipelineHistory.Record.{
  assign_tokens, parse_into, insert_stage, stage_values, Event, Scan, scan_line, scan_lines,
  read_header,
}
use my_ad.PipelineHistory.History.{
  bounds_of, check_sequence, phase_of, sort_calls, pop_results, has_graphics_begin, is_target,
  target_events, Unmatched, hashed, describe, insert_unmatched, unmatched_graphics, selected_target,
  trigger_of, History, last_line, report, analyze,
}
use my_ad.PipelineHistory.Unmatched.{IsHistory, report-IsHistory}

abbrev lines : List Text
lines =
    codes "schema=1"
    ∷ codes "phase=before_compute_create target=t"
    ∷ codes "first_sequence=2 last_sequence=4 dropped=1"
    ∷ codes "module=0x9 hash=AB"
    ∷ codes "event=2 phase=begin kind=graphics call=7 thread=1 cache=c"
    ∷ codes "event=3 phase=result call=7 thread=1 cache=c"
    ∷ codes
        "event=4 phase=begin kind=graphics call=8 thread=1 cache=c layout=l render_pass=r flags=0 stage0=1,0x9,m"
    ∷ codes "graphics_state call=8 replay_ready=0"
    ∷ codes "end=1"
    ∷ []

abbrev seventh : Event
seventh = record {
  fields =
      (codes "event", codes "2")
      ∷ (codes "phase", codes "begin")
      ∷ (codes "kind", codes "graphics")
      ∷ (codes "call", codes "7")
      ∷ (codes "thread", codes "1")
      ∷ (codes "cache", codes "c")
      ∷ [];
  stages = [];
}

abbrev its_result : Event
its_result = record {
  fields =
      (codes "event", codes "3")
      ∷ (codes "phase", codes "result")
      ∷ (codes "call", codes "7")
      ∷ (codes "thread", codes "1")
      ∷ (codes "cache", codes "c")
      ∷ [];
  stages = [];
}

abbrev eighth : Event
eighth = record {
  fields =
      (codes "event", codes "4")
      ∷ (codes "phase", codes "begin")
      ∷ (codes "kind", codes "graphics")
      ∷ (codes "call", codes "8")
      ∷ (codes "thread", codes "1")
      ∷ (codes "cache", codes "c")
      ∷ (codes "layout", codes "l")
      ∷ (codes "render_pass", codes "r")
      ∷ (codes "flags", codes "0")
      ∷ (codes "stage0", codes "1,0x9,m")
      ∷ [];
  stages = record { index = 0; stage = pos 1; module_handle = codes "0x9"; entry = codes "m" } ∷ [];
}

abbrev state : Dict
state = (codes "call", codes "8") ∷ (codes "replay_ready", codes "0") ∷ []

abbrev scanned : Scan
scanned = record {
  events = seventh ∷ its_result ∷ eighth ∷ [];
  states = (codes "8", state) ∷ [];
  modules = (codes "0x9", codes "AB") ∷ [];
}

abbrev pending : Unmatched
pending = record {
  event = pos 4;
  call = pos 8;
  thread = pos 1;
  cache = codes "c";
  layout = codes "l";
  render_pass = codes "r";
  flags = pos 0;
  stages =
      record {
        stage = record { index = 0; stage = pos 1; module_handle = codes "0x9"; entry = codes "m" };
        shader_hash = some (codes "AB");
      }
      ∷ [];
  fixed_state = some state;
}

abbrev history : History
history = record {
  trigger = selected_target;
  event_count = 3;
  result_count = 1;
  module_count = 1;
  fixed_state_count = 1;
  target_events = [];
  unmatched = pending ∷ [];
}

sample_scan : scan_lines (record { events = []; states = []; modules = [] }) lines ≡ ok scanned
unfolding scan_lines scan_line parse_into assign_tokens words partition assign field_of find strip
    lstrip is_space after_prefix stage_values insert_stage natural digits to_int
sample_scan = refl

reported : report (codes "t") selected_target (record { first = 2; last = 4 }) scanned ≡ ok history
unfolding report check_sequence sort_calls pop_results unmatched_graphics describe hashed
    insert_unmatched phase_of has_graphics_begin target_events is_target field_of put remove find
    to_int strip lstrip is_space natural digits
reported = refl

analyzed : analyze lines (codes "t") ≡ ok history
unfolding analyze last_line bounds_of trigger_of read_header scan_lines scan_line parse_into
    assign_tokens words partition assign field_of find strip lstrip is_space after_prefix
    stage_values insert_stage natural digits to_int report check_sequence sort_calls pop_results
    unmatched_graphics describe hashed insert_unmatched phase_of has_graphics_begin target_events
    is_target put remove
analyzed = refl

report-IsHistory_example : IsHistory (record { first = 2; last = 4 }) scanned history
report-IsHistory_example =
    report-IsHistory (codes "t") selected_target (record { first = 2; last = 4 }) scanned history
      reported
