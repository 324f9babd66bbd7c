-- ===== src/PipelineHistory/Record.antt =====
-- analyze_vulkan_pipeline_history.py: `parse_line`, `stage_values` and the scan of the lines.
use my_ad.Prelude.{
  ℕ, String, Bool, true, false, not, ◌&&◌, Option, none, some, List, [], ◌∷◌, ◌++◌, Result, ok, err,
  ◌>>=◌, ◌>>◌, require, codes, is_empty, leb, all, if◌then◌else◌,
}
use my_ad.Prelude.Int.{ℤ}
use my_ad.PyText.{
  Text, same, Dict, partition, assign, field_of, words, after_prefix, strip, find, three_parts,
  is_digit, natural, to_int,
}

pub data HistoryFault : Type 0 where
  bad_schema not_snapshot other_target bad_trigger bad_bounds bad_state bad_module : HistoryFault
  too_many incomplete unknown_phase state_without_begin no_target_begin : HistoryFault
  -- the TypeError of `sorted`
  unordered : HistoryFault
  -- "invalid stage record", and the ValueError of `int`
  bad_stage not_number : HistoryFault
  -- a KeyError
  no_key : HistoryFault

abbrev assign_token : Dict → Text → Dict
assign_token dict token = elim (partition b'=' token) [
  | none ↦ dict
  | some (key, value) ↦ assign key value dict
]

unfoldable pub assign_tokens : Dict → List Text → Dict
assign_tokens dict [] = dict
assign_tokens dict (token ∷ tokens) = assign_tokens (assign_token dict token) tokens

-- `parse_line`, into a dict that is there: `header.update(parse_line(line))`
unfoldable pub parse_into : Dict → Text → Dict
unfolding assign_tokens
parse_into dict line = assign_tokens dict (words [] (strip line))

pub record Stage : Type 0 where
  pub index : ℕ
  pub stage : ℤ
  pub module_handle : Text
  pub entry : Text

abbrev pub int_of : Text → Result HistoryFault ℤ
int_of text = elim (to_int text) [ none ↦ err not_number | some n ↦ ok n ]

-- `key[5:]` of a key that starts with "stage" and goes on in digits
abbrev stage_index : Text → Option ℕ
stage_index key = elim (after_prefix (codes "stage") key) [
  | none ↦ none
  | some rest ↦ if all is_digit rest then natural rest else none
]

abbrev stage_of : ℕ → Text → Result HistoryFault Stage
stage_of index value = elim (three_parts value) [
  | none ↦ err bad_stage
  | some (kind, module_handle, entry) ↦ int_of kind >>= λ n.
      ok (record { index = index; stage = n; module_handle = module_handle; entry = entry })
]

-- `sorted(stages, key=…index)`, which keeps the order of equal ones
unfoldable pub insert_stage : Stage → List Stage → List Stage
insert_stage s [] = s ∷ []
insert_stage s (t ∷ stages) =
    let rest = insert_stage s stages in if leb s.index t.index then s ∷ t ∷ stages else t ∷ rest

-- `stage_values`. The last entry of the dict is put in its place first, so that equal ones keep
-- their order.
unfoldable pub stage_values : Dict → Result HistoryFault (List Stage)
unfolding insert_stage
stage_values [] = ok []
stage_values ((key, value) ∷ event) = elim (stage_index key) [
  | none ↦ stage_values event
  | some index ↦
      stage_of index value >>= λ s. stage_values event >>= λ stages. ok (insert_stage s stages)
]

pub record Event : Type 0 where
  pub fields : Dict
  pub stages : List Stage

-- What the scan of the lines has found: the events, the fixed states by their call, and the hashes of
-- the modules.
pub record Scan : Type 0 where
  pub events : List Event
  pub states : List (Text × Dict)
  pub modules : Dict

abbrev pub starts : String → Text → Bool
starts prefix line = elim (after_prefix (codes prefix) line) [ none ↦ false | some _ ↦ true ]

abbrev has_text : Option Text → Option Text
has_text none = none
has_text (some s) = if is_empty s then none else some s

abbrev pub says : Text → String → Dict → Bool
says key value dict = elim (field_of key dict) [ none ↦ false | some v ↦ same v (codes value) ]

abbrev is_known : Text → List (Text × Dict) → Bool
is_known call states = elim (find call states) [ none ↦ false | some _ ↦ true ]

abbrev add_event : Scan → Dict → Result HistoryFault Scan
add_event scan event = stage_values event >>= λ stages.
    ok (record scan { events = scan.events ++ record { fields = event; stages = stages } ∷ [] })

abbrev add_state : Scan → Dict → Result HistoryFault Scan
add_state scan state = elim (has_text (field_of (codes "call") state)) [
  | none ↦ err bad_state
  | some call ↦
      require (not (is_known call scan.states) && says (codes "replay_ready") "0" state) bad_state
      >> ok (record scan { states = scan.states ++ (call, state) ∷ [] })
]

abbrev add_module : Scan → Dict → Result HistoryFault Scan
add_module scan module_fields = elim (has_text (field_of (codes "module") module_fields)) [
  | none ↦ err bad_module
  | some handle ↦ elim (has_text (field_of (codes "hash") module_fields)) [
    | none ↦ err bad_module
    | some hash ↦ ok (record scan { modules = assign handle hash scan.modules })
  ]
]

-- the body of the loop over the lines
unfoldable pub scan_line : Scan → Text → Result HistoryFault Scan
unfolding parse_into
scan_line scan line =
    if starts "event=" line
    then add_event scan (parse_into [] line)
    else (if starts "graphics_state " line
        then add_state scan (parse_into [] line)
        else (if starts "module=" line then add_module scan (parse_into [] line) else ok scan))

unfoldable pub scan_lines : Scan → List Text → Result HistoryFault Scan
unfolding scan_line
scan_lines scan [] = ok scan
scan_lines scan (line ∷ lines) = scan_line scan line >>= λ next. scan_lines next lines

-- the header: the lines after the first one and before the first event
unfoldable pub read_header : Dict → List Text → Dict
unfolding parse_into
read_header header [] = header
read_header header (line ∷ lines) =
    let rest = read_header (parse_into header line) lines in
    if starts "event=" line then header else rest
