-- ===== src/Comparison/Decision.antt =====
-- compare_gb10_vulkan_diagnostics.py: `parse_decision`, `classify`, `blocked_reason` and the
-- reading of the gate's output. Text is a list of code points, and a file a list of lines.
use my_ad.Prelude.{Bool, false, Option, none, some, List, [], ◌∷◌, codes, if◌then◌else◌}
use my_ad.PyText.{Text, same, Dict, strip, after_prefix, partition, assign, field_of, words}

abbrev pub Decision : Type 0
Decision = Dict

abbrev entry : Text → Option (Text × Text)
entry line = elim (after_prefix (codes "- ") (strip line)) [
  | none ↦ none
  | some rest ↦ partition b':' rest
]

parse_lines : Decision → List Text → Decision
parse_lines fields [] = fields
parse_lines fields (line ∷ lines) =
    parse_lines
      (elim (entry line) [
        | none ↦ fields
        | some (key, value) ↦ assign (strip key) (strip value) fields
      ])
      lines

-- `parse_decision`
unfoldable pub parse_decision : List Text → Decision
unfolding parse_lines after_prefix partition assign strip
parse_decision lines = parse_lines [] lines

pub data Status : Type 0 where
  pass fail blocked not_run : Status

abbrev pub has_value : Text → Text → Decision → Bool
has_value key value fields = elim (field_of key fields) [ none ↦ false | some v ↦ same v value ]

abbrev pub is_preflight : Decision → Bool
is_preflight fields = has_value (codes "Step") (codes "preflight") fields

abbrev pub is_device_abort : Decision → Bool
is_device_abort fields = has_value (codes "Client abort") (codes "device-creation") fields

-- `classify`
unfoldable pub classify : List Text → Status
classify lines =
    let fields = parse_decision lines in
    if has_value (codes "Status") (codes "PASS") fields
    then pass
    else (if is_preflight fields
        then blocked
        else (if is_device_abort fields then blocked else fail))

pub data Reason : Type 0 where
  preflight_failed device_rejected timed_out no_run_directory skipped : Reason

-- `blocked_reason`; none is the empty text
unfoldable pub blocked_reason : List Text → Option Reason
blocked_reason lines =
    let fields = parse_decision lines in
    if is_preflight fields
    then some preflight_failed
    else (if is_device_abort fields then some device_rejected else none)

first_artifact : List Text → Option Text
first_artifact [] = none
first_artifact (word ∷ rest) = elim (after_prefix (codes "artifacts=") word) [
  | none ↦ first_artifact rest
  | some path ↦ some path
]

-- `parse_artifact_path`
unfoldable pub parse_artifact_path : Text → Option Text
unfolding first_artifact words after_prefix
parse_artifact_path stdout = first_artifact (words [] stdout)
