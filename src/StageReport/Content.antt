-- ===== src/StageReport/Content.antt =====
-- stage_report.py, `_content_errors`. Each block of statements that collects errors is a function
-- from the report to its errors. The recursive call for a prerequisite is an argument.
use my_ad.Prelude.{
  ℕ, suc, String, Bool, true, false, not, ◌&&◌, ◌||◌, Option, none, some, List, [], ◌∷◌, ◌++◌,
  Result, ok, err, ◌>>=◌, ◌>>◌, require, contains, str_eq, is_blank, if◌then◌else◌,
}
use my_ad.Json.{
  Value, str, arr, obj, Items, nil, cons, Fields, end, field, get, keys, is_text, is_int, is_str,
  is_string,
}
use my_ad.StageReport.Fault.{
  Fault, bad_schema_version, wrong_stage_id, wrong_scope, bad_created_at, nonzero_exit_code,
  bad_command, no_sources, bad_source, bad_required_checks, duplicate_required_checks, no_checks,
  missing_check, undeclared_check, check_not_pass, no_evidence, missing_evidence,
  empty_evidence_name, own_evidence, sha256_mismatch, bad_prerequisites, prerequisite,
  no_expected_identity, duplicate_prerequisite,
}
use my_ad.StageReport.Host.{Files, Host}
use my_ad.StageReport.Files.{Checked, digest, file_identity}

-- `if not condition: errors.append(e)`
abbrev pub demand : Bool → Fault → List Fault
demand true e = []
demand false e = e ∷ []

-- `try: … except (OSError, ValueError) as error: errors.append(…)`
abbrev pub collect {ℓ} : {A : Type ℓ} → (Fault → Fault) → Result Fault A → List Fault
collect wrap (ok _) = []
collect wrap (err e) = wrap e ∷ []

-- `_text(expected) and report.get(key) == expected`
abbrev pub matches : Value → Value → Bool
matches (str expected) actual = not (is_blank expected) && is_str expected actual
matches _ actual = false

-- `datetime.fromisoformat(created_at).utcoffset() is not None`, with no exception
abbrev pub has_timezone : Host → Value → Bool
has_timezone host (str created) = elim (host.utcoffset created) [
  | none ↦ false
  | some aware ↦ aware
]
has_timezone host _ = false

-- schema version, identity, time stamp and exit code
unfoldable pub header_errors : Host → Fields → Value → Value → List Fault
header_errors host report stage_id scope =
    demand (is_int 1 (get "schema_version" report)) bad_schema_version
    ++ (demand (matches stage_id (get "stage_id" report)) (wrong_stage_id stage_id)
        ++ (demand (matches scope (get "scope" report)) (wrong_scope scope)
            ++ (demand (has_timezone host (get "created_at" report)) bad_created_at
                ++ demand (is_int 0 (get "exit_code" report))
                    (nonzero_exit_code (get "exit_code" report)))))

abbrev pub all_strings : Items → Bool
all_strings nil = true
all_strings (cons x xs) = is_string x && all_strings xs

abbrev pub is_argv : Value → Bool
is_argv (arr (cons program arguments)) = is_text program && all_strings (cons program arguments)
is_argv _ = false

unfoldable pub command_errors : Fields → List Fault
command_errors report = demand (is_argv (get "command" report)) bad_command

abbrev pub is_source : String → Value → Bool
is_source name (obj source) =
    not (is_blank name) && is_text (get "location" source) && is_text (get "revision" source)
is_source name _ = false

unfoldable pub each_source : Fields → List Fault
each_source end = []
each_source (field name source rest) =
    demand (is_source name source) (bad_source name) ++ each_source rest

abbrev pub source_errors_of : Value → List Fault
source_errors_of (obj (field name source rest)) = each_source (field name source rest)
source_errors_of _ = no_sources ∷ []

unfoldable pub source_errors : Fields → List Fault
unfolding each_source
source_errors report = source_errors_of (get "sources" report)

-- The items of a list of texts; none where one of them is no text.
abbrev pub texts : Items → Option (List String)
texts nil = some []
texts (cons (str name) rest) =
    if is_blank name
    then none
    else elim (texts rest) [ none ↦ none | some names ↦ some (name ∷ names) ]
texts (cons _ rest) = none

abbrev pub names_of : Value → Option (List String)
names_of (arr (cons name rest)) = texts (cons name rest)
names_of _ = none

-- `len(set(names)) != len(names)`
abbrev pub has_duplicate : List String → Bool
has_duplicate [] = false
has_duplicate (name ∷ names) = contains name names || has_duplicate names

-- `required` as the later statements see it: empty where it is no list of names
unfoldable pub required_names : Fields → List String
required_names report = elim (names_of (get "required_checks" report)) [
  | none ↦ []
  | some names ↦ names
]

unfoldable pub required_errors : Fields → List Fault
required_errors report = elim (names_of (get "required_checks" report)) [
  | none ↦ bad_required_checks ∷ []
  | some names ↦ demand (not (has_duplicate names)) duplicate_required_checks
]

-- A dict as the later statements see it: empty where it is none
abbrev pub dict_of : Value → Fields
dict_of (obj fields) = fields
dict_of _ = end

abbrev pub is_end : Fields → Bool
is_end end = true
is_end (field _ _ _) = false

unfoldable pub missing : (String → Fault) → Fields → List String → List Fault
missing fault present [] = []
missing fault present (name ∷ names) =
    demand (contains name (keys present)) (fault name) ++ missing fault present names

unfoldable pub each_check : List String → Fields → List Fault
each_check required end = []
each_check required (field name status rest) =
    demand (not (is_blank name) && contains name required) (undeclared_check name)
    ++ (demand (is_str "PASS" status) (check_not_pass name status) ++ each_check required rest)

-- that every required check is reported, and every reported one declared and PASS
unfoldable pub check_errors : Fields → List Fault
unfolding missing each_check required_names
check_errors report =
    let required = required_names report in
    let checks = dict_of (get "checks" report) in
    demand (not (is_end checks)) no_checks
    ++ (missing missing_check checks required ++ each_check required checks)

-- The items of a set: one of each name, the last that stands in the list.
unfoldable pub distinct : List String → List String
distinct [] = []
distinct (name ∷ names) =
    let rest = distinct names in if contains name names then rest else name ∷ rest

abbrev pub text_of : Value → String
text_of (str s) = s
text_of _ = ""

abbrev pub next_seen : List String → Value → List String
next_seen seen (obj item) =
    if is_text (get "stage_id" item) && is_text (get "scope" item)
    then text_of (get "stage_id" item) ∷ seen
    else seen
next_seen seen _ = seen

module _ (host : Host) (files : Files) where
  abbrev pub check_evidence : String → String → Value → Checked Unit
  check_evidence path name file_record = do
    require (not (is_blank name)) empty_evidence_name
    (evidence_path, checksum) ← file_identity host file_record (host.parent path)
    require (not (str_eq evidence_path path)) own_evidence
    actual ← digest host files evidence_path
    require (str_eq actual checksum) (sha256_mismatch evidence_path)

  unfoldable pub each_evidence : String → Fields → List Fault
  each_evidence path end = []
  each_evidence path (field name file_record rest) =
      collect (Fault.evidence name) (check_evidence path name file_record)
      ++ each_evidence path rest

  -- The union of the two sets of names is listed in the order of its parts.
  unfoldable pub evidence_errors : String → Fields → List Fault
  unfolding missing each_evidence required_names distinct
  evidence_errors path report =
      let names = distinct (required_names report ++ keys (dict_of (get "checks" report))) in
      let files_of = dict_of (get "evidence" report) in
      demand (not (is_end files_of)) no_evidence
      ++ (missing missing_evidence files_of names ++ each_evidence path files_of)

  -- `validate path stage_id scope checksum` is the call of `_validate_file`
  module _ (validate : String → Value → Value → Option String → Checked Fields) where
    abbrev pub check_prerequisite : String → List String → Value → Checked Unit
    check_prerequisite path seen (obj item) = do
      require (is_text (get "stage_id" item) && is_text (get "scope" item)) no_expected_identity
      require (not (contains (text_of (get "stage_id" item)) seen))
          (duplicate_prerequisite (text_of (get "stage_id" item)))
      (prerequisite_path, checksum) ← file_identity host (obj item) (host.parent path)
      report ← validate prerequisite_path (get "stage_id" item) (get "scope" item) (some checksum)
      ok tt
    check_prerequisite path seen _ = err no_expected_identity

    unfoldable pub each_prerequisite : String → ℕ → List String → Items → List Fault
    each_prerequisite path index seen nil = []
    each_prerequisite path index seen (cons item rest) =
        collect (prerequisite index) (check_prerequisite path seen item)
        ++ each_prerequisite path (suc index) (next_seen seen item) rest

    abbrev pub prerequisite_errors_of : String → Value → List Fault
    prerequisite_errors_of path (arr items) = each_prerequisite path 0 [] items
    prerequisite_errors_of path _ = bad_prerequisites ∷ []

    -- the prerequisites, which must be a list
    unfoldable pub prerequisite_errors : String → Fields → List Fault
    unfolding each_prerequisite
    prerequisite_errors path report = prerequisite_errors_of path (get "prerequisites" report)

    -- `_content_errors`
    unfoldable pub content_errors : Fields → String → Value → Value → List Fault
    content_errors report path stage_id scope =
        header_errors host report stage_id scope
        ++ (command_errors report
            ++ (source_errors report
                ++ (required_errors report
                    ++ (check_errors report
                        ++ (evidence_errors path report ++ prerequisite_errors path report)))))
