-- ===== src/ForkProvenance/Report.antt =====
-- report_fork_provenance.py: `describe_source`, `build_provenance`, `load_recorded`, `compare` and
-- the exit code of `main` with --verify.
use my_ad.Prelude.{
  ℕ, ◌+◌, String, Bool, true, false, Option, none, some, List, [], ◌∷◌, ◌++◌, Result, ok, err,
  ◌>>=◌, ◌>>◌, require, str_eq, contains, codes, is_empty, ltb, ◌==◌, if◌then◌else◌,
}
use my_ad.Prelude.Int.{ℤ, pos}
use my_ad.PyText.{Text, strip}
use my_ad.Json.{Value, null, bool, int, float, str, obj, Fields, end, field, get, keys, is_text}
use my_ad.StageReport.Host.{Bytes, Entry, regular}
use my_ad.ForkDelta.Delta.{Source, carla, ue, sources, starts_with}

pub data ProvenanceFault : Type 0 where
  not_checkout git_failed missing_source : Source → ProvenanceFault
  not_readable bad_schema bad_sources : ProvenanceFault
  empty_field : Source → String → ProvenanceFault

-- What git answers for the repositories, and what the standard library answers.
pub record Machine : Type 0 where
  pub is_checkout : Source → Bool
  pub git_diff : Source → Option Bytes
  -- the lines of `git status --porcelain`
  pub git_status : Source → Option (List Text)
  -- the outputs of rev-parse and log, stripped
  pub git_head : Source → Option String
  pub git_subject : Source → Option String
  -- `_branch`
  pub branch : Source → String
  pub location : Source → String
  pub sha256 : Bytes → String
  -- `json.loads` of a file that decodes; a repeated key keeps its last value
  pub parse : Bytes → Option Value
  -- whether a float, by its bit pattern, equals an integer
  pub float_equals : ℕ → ℤ → Bool

unfoldable pub source_name : Source → String
source_name carla = "carla"
source_name ue = "ue"

pub record Dirty : Type 0 where
  pub tracked : ℕ
  pub untracked : ℕ

-- the loop over the lines of the status
unfoldable pub count_status : Dirty → List Text → Dirty
unfolding starts_with
count_status dirty [] = dirty
count_status dirty (line ∷ lines) =
    if is_empty (strip line)
    then count_status dirty lines
    else (if starts_with (codes "??") line
        then count_status (record dirty { untracked = dirty.untracked + 1 }) lines
        else count_status (record dirty { tracked = dirty.tracked + 1 }) lines)

abbrev pub output : {A : Type 0} → Source → Option A → Result ProvenanceFault A
output name none = err (git_failed name)
output name (some a) = ok a

-- The values of a source that is derived: texts and counts.
abbrev pub count_value : ℕ → Value
count_value n = int (pos n)

module _ (m : Machine) where
  -- `describe_source`
  unfoldable pub describe_source : Source → Result ProvenanceFault Fields
  unfolding count_status
  describe_source name = do
    require (m.is_checkout name) (not_checkout name)
    diff ← output name (m.git_diff name)
    status ← output name (m.git_status name)
    let dirty = count_status (record { tracked = 0; untracked = 0 }) status
    revision ← output name (m.git_head name)
    subject ← output name (m.git_subject name)
    ok (
        field "location" (str (m.location name)) (
          field "revision" (str revision) (
            field "branch" (str (m.branch name)) (
              field "subject" (str subject) (
                field "tracked_dirty_files" (count_value dirty.tracked) (
                  field "untracked_files" (count_value dirty.untracked)
                    (field "tracked_diff_sha256" (str (m.sha256 diff)) end)))))))

  -- the entry `sources` of `build_provenance`
  unfoldable pub build_sources : List Source → Result ProvenanceFault Fields
  build_sources [] = ok end
  build_sources (name ∷ names) = describe_source name >>= λ source.
      build_sources names >>= λ rest. ok (field (source_name name) (obj source) rest)

  unfoldable pub build_provenance : Result ProvenanceFault Fields
  build_provenance = build_sources sources

  -- `current == expected`, of a text or a count and a JSON value
  unfoldable pub equals : Value → Value → Bool
  equals (str s) (str t) = str_eq s t
  equals (str s) _ = false
  equals (int (pos n)) (int (pos k)) = n == k
  equals (int (pos n)) (bool b) = n == (if b then 1 else 0)
  equals (int n) (float x) = m.float_equals x n
  equals _ _ = false

  abbrev pub source_of : Value → Option Fields
  source_of (obj source) = some source
  source_of _ = none

  abbrev check_field : Source → Fields → String → Result ProvenanceFault (Unit {0})
  check_field name source key = require (is_text (get key source)) (empty_field name key)

  unfoldable pub check_sources : Fields → List Source → Result ProvenanceFault (Unit {0})
  check_sources recorded [] = ok tt
  check_sources recorded (name ∷ names) = elim (source_of (get (source_name name) recorded)) [
    | none ↦ err (missing_source name)
    | some source ↦
        check_field name source "location"
        >> (check_field name source "revision" >> check_sources recorded names)
  ]

  -- `load_recorded`, from the bytes on: the entry `sources`
  unfoldable pub load_recorded : Entry → Result ProvenanceFault Fields
  load_recorded (regular raw) = elim (m.parse raw) [
    | some (obj data_) ↦
        require (equals (int (pos 1)) (get "schema_version" data_)) bad_schema
        >> (elim (source_of (get "sources" data_)) [
          | none ↦ err bad_sources
          | some recorded ↦ check_sources recorded sources >> ok recorded
        ])
    | some _ ↦ err bad_schema
    | none ↦ err not_readable
  ]
  load_recorded _ = err not_readable

pub data Note : Type 0 where
  not_derivable drift : Note

pub record Row : Type 0 where
  pub source : Source
  pub key : String
  pub recorded : Value
  pub live : Value
  pub note : Note

-- the order of Python's texts
abbrev pub precedes : Text → Text → Bool
precedes [] t = true
precedes (a ∷ s) [] = false
precedes (a ∷ s) (b ∷ t) = if a == b then precedes s t else ltb a b

-- `sorted(….items())`, whose keys differ
unfoldable pub insert_field : String → Value → Fields → Fields
insert_field key value end = field key value end
insert_field key value (field k v rest) =
    let later = insert_field key value rest in
    if precedes (codes key) (codes k) then field key value (field k v rest) else field k v later

unfoldable pub sort_fields : Fields → Fields
unfolding insert_field
sort_fields end = end
sort_fields (field key value rest) = insert_field key value (sort_fields rest)

abbrev pub fields_of : Value → Fields
fields_of (obj fields) = fields
fields_of _ = end

module _ (m : Machine) where
  abbrev pub rows_of : Source → Fields → String → Value → List Row
  rows_of name current key expected =
      if contains key (keys current)
      then (if equals m (get key current) expected
          then []
          else record {
            source = name;
            key = key;
            recorded = expected;
            live = get key current;
            note = drift;
          }
            ∷ [])
      else record {
        source = name;
        key = key;
        recorded = expected;
        live = null;
        note = not_derivable;
      }
        ∷ []

  -- the inner loop of `compare`
  unfoldable pub compare_fields : Source → Fields → Fields → List Row
  compare_fields name current end = []
  compare_fields name current (field key expected rest) =
      rows_of name current key expected ++ compare_fields name current rest

  unfoldable pub compare_each : Fields → Fields → List Source → List Row
  compare_each recorded live [] = []
  compare_each recorded live (name ∷ names) =
      compare_fields name (fields_of (get (source_name name) live))
        (sort_fields (fields_of (get (source_name name) recorded)))
      ++ compare_each recorded live names

  -- `compare`, of the entries `sources`
  unfoldable pub compare : Fields → Fields → List Row
  compare recorded live = compare_each recorded live sources

  abbrev pub exit_of : Result ProvenanceFault Fields → Result ProvenanceFault Fields → ℕ
  exit_of (ok live) (ok recorded) = if is_empty (compare recorded live) then 0 else 1
  exit_of (ok live) (err _) = 2
  exit_of (err _) _ = 2

  -- `main` with --verify: the exit code
  unfoldable pub main_verify : Entry → ℕ
  main_verify entry = exit_of (build_provenance m) (load_recorded m entry)
