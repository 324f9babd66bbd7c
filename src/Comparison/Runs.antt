-- ===== src/Comparison/Runs.antt =====
-- compare_gb10_vulkan_diagnostics.py: `host_run_dir`, `run_config`, `summarize` and the loop and the
-- report of `main`.
use my_ad.Prelude.{
  ℕ, String, Bool, true, false, not, ◌&&◌, Option, none, some, List, [], ◌∷◌, map, codes, Result,
  ok, err, ◌>>=◌, all, str_eq, contains, is_empty, if◌then◌else◌,
}
use my_ad.Comparison.Decision.{
  Decision, Status, fail, blocked, not_run, Reason, timed_out, no_run_directory, skipped,
  parse_decision, classify, blocked_reason, parse_artifact_path,
}
use my_ad.PyText.{Text, same, field_of}

-- One of `CONFIGS`: its name and its make variables.
pub record Config : Type 0 where
  pub name : String
  pub make_env : List (String × String)

unfoldable pub configs : List Config
configs =
    record { name = "control"; make_env = [] }
    ∷ record { name = "debug-utils"; make_env = ("RUNTIME_VULKAN_DEBUG_UTILS", "1") ∷ [] }
    ∷ record { name = "validation"; make_env = ("RUNTIME_VULKAN_VALIDATION", "1") ∷ [] }
    ∷ record {
      name = "serialize-driver-calls";
      make_env = ("GB10_SERIALIZE_DRIVER_CALLS", "1") ∷ [];
    }
    ∷ []

-- What `make` did: it ran into the timeout, or it ended with some output.
pub data Attempt : Type 0 where
  expired : Attempt
  ended : Text → Attempt

-- The machine on which the gate runs.
pub record Machine : Type 0 where
  pub make : Config → Attempt
  -- `PurePosixPath(path).parts`
  pub parts : Text → List Text
  -- `artifacts_root.joinpath(*parts).is_dir()`
  pub is_dir : List Text → Bool
  -- the lines of decision.md in that directory; none if it is no file
  pub decision : List Text → List Text

-- A record of the report. `decision` is none where the dict has no such key.
pub record Run : Type 0 where
  pub config : String
  pub status : Status
  pub run_dir : Option (List Text)
  pub decision : Option Decision
  pub reason : Option Reason

abbrev below_artifacts : List Text → Option (List Text)
below_artifacts (root ∷ second ∷ third ∷ rest) =
    if same second (codes "artifacts") then some (third ∷ rest) else none
below_artifacts _ = none

abbrev pub skip : Config → Run
skip config = record {
  config = config.name;
  status = not_run;
  run_dir = none;
  decision = some [];
  reason = some skipped;
}

abbrev pub is_blocked : Status → Bool
is_blocked blocked = true
is_blocked _ = false

module _ (machine : Machine) where
  -- `host_run_dir`: the parts below the artifacts root
  unfoldable pub host_run_dir : Text → Option (List Text)
  host_run_dir container_path = elim (below_artifacts (machine.parts container_path)) [
    | none ↦ none
    | some dir ↦ if machine.is_dir dir then some dir else none
  ]

  abbrev run_dir_of : Text → Option (List Text)
  run_dir_of stdout = elim (parse_artifact_path stdout) [
    | none ↦ none
    | some path ↦ if is_empty path then none else host_run_dir path
  ]

  abbrev decided : Config → List Text → Run
  decided config dir =
      let lines = machine.decision dir in
      record {
        config = config.name;
        status = classify lines;
        run_dir = some dir;
        decision = some (parse_decision lines);
        reason = blocked_reason lines;
      }

  abbrev attempted : Config → Attempt → Run
  attempted config expired = record {
    config = config.name;
    status = blocked;
    run_dir = none;
    decision = none;
    reason = some timed_out;
  }
  attempted config (ended stdout) = elim (run_dir_of stdout) [
    | none ↦ record {
      config = config.name;
      status = blocked;
      run_dir = none;
      decision = none;
      reason = some no_run_directory;
    }
    | some dir ↦ decided config dir
  ]

  -- `run_config`
  unfoldable pub run_config : Config → Run
  run_config config = attempted config (machine.make config)

  -- the loop of `main` over the selected configurations
  unfoldable pub run_all : Bool → List Config → List Run
  run_all keep_going [] = []
  run_all keep_going (config ∷ rest) =
      let record_ = run_config config in
      let next = run_all keep_going rest in
      if is_blocked record_.status && not keep_going
      then record_ ∷ map skip rest
      else record_ ∷ next

pub data Overall : Type 0 where
  blocked_by : Option Reason → Overall
  no_baseline : Option Status → Overall
  comparable : Overall

unfoldable pub first_blocked : List Run → Option Run
first_blocked [] = none
first_blocked (run ∷ runs) = elim run.status [ blocked ↦ some run | _ ↦ first_blocked runs ]

-- `{run["config"]: run["status"] for run in runs}.get(name)`: a later run replaces an earlier one
unfoldable pub status_of : String → List Run → Option Status
status_of name [] = none
status_of name (run ∷ runs) = elim (status_of name runs) [
  | some s ↦ some s
  | none ↦ if str_eq run.config name then some run.status else none
]

abbrev baseline : Option Status → Overall
baseline (some fail) = comparable
baseline other = no_baseline other

-- `summarize`
unfoldable pub summarize : List Run → Overall
unfolding first_blocked
summarize runs = elim (first_blocked runs) [
  | some run ↦ blocked_by run.reason
  | none ↦ baseline (status_of "control" runs)
]

pub data MainFault : Type 0 where
  -- `run["decision"]` on a record that has no such key
  key_error : MainFault

-- The rows of summary.md.
pub record Row : Type 0 where
  pub config : String
  pub status : Status
  pub abort : Option Text
  pub stop_code : Option Text

unfoldable pub summary_rows : List Run → Result MainFault (List Row)
summary_rows [] = ok []
summary_rows (run ∷ runs) = elim run.decision [
  | none ↦ err key_error
  | some decision ↦ summary_rows runs >>= λ rows. ok (
      record {
        config = run.config;
        status = run.status;
        abort = field_of (codes "Client abort") decision;
        stop_code = field_of (codes "Server stop code") decision;
      }
      ∷ rows)
]

-- `not wanted or config["name"] in wanted`
unfoldable pub select : List String → List Config → List Config
select wanted [] = []
select wanted (config ∷ rest) =
    if is_empty wanted
    then config ∷ select wanted rest
    else (if contains config.name wanted then config ∷ select wanted rest else select wanted rest)

abbrev pub exit_code : Overall → ℕ
exit_code comparable = 0
exit_code _ = 3

-- `main`, behind the parsing of its arguments and the dry run: the exit code. An unknown configuration is a usage
-- error.
unfoldable pub main : Machine → List String → Bool → Result MainFault ℕ
main machine wanted keep_going =
    let runs = run_all machine keep_going (select wanted configs) in
    if all (λ name. contains name (map (λ c. c.name) configs)) wanted
    then (summary_rows runs >>= λ rows. ok (exit_code (summarize runs)))
    else ok 2
