-- ===== src/RuntimeEntry/Inputs.antt =====
-- runtime_entry_report.py: `capture`, `_input_state` and `verify_inputs`.
use my_ad.Prelude.{
  ℕ, String, Bool, true, false, not, ◌&&◌, ◌||◌, none, some, List, [], ◌∷◌, Result, ok, err, ◌>>=◌,
  ◌>>◌, require, str_eq, contains, all, length, codes, leb, ◌==◌, is_sha256,
}
use my_ad.Prelude.Int.{pos}
use my_ad.Json.{Value, int, str, obj, Fields, end, field, get, keys, is_int, build, JsonFault}
use my_ad.StageReport.Host.{Bytes, Entry, absent, unreadable, regular, Files, Host}
use my_ad.StageReport.Write.{replace}

unfoldable pub labels : List String
labels = "wheel" ∷ "wrapper" ∷ "evaluator" ∷ "stage-writer" ∷ "provenance" ∷ "entry-reporter" ∷ []

pub data EntryFault : Type 0 where
  would_overwrite : String → EntryFault
  unknown_label : String → EntryFault
  duplicate_label : String → EntryFault
  missing_labels : EntryFault
  missing_file : String → EntryFault
  os_error : String → EntryFault
  not_encodable : EntryFault
  bad_pin : EntryFault
  missing_manifest : String → EntryFault
  manifest_mismatch : EntryFault
  bad_json : JsonFault → EntryFault
  bad_schema : EntryFault
  not_six_labels : EntryFault
  record_not_object : String → EntryFault
  path_not_absolute : String → EntryFault
  record_sha256 : String → EntryFault
  input_mismatch : String → EntryFault
  incomplete : EntryFault

abbrev pub Checked : Type 0 → Type 0
Checked A = Result EntryFault A

-- What the script asks of `pathlib` and `str`, beside `Host`.
pub record Paths : Type 0 where
  -- `str(Path(path).absolute())`
  pub absolute : String → String
  pub is_absolute : String → Bool
  pub is_symlink : String → Bool
  -- `run_dir / name`
  pub join : String → String → String
  pub lower : String → String

-- `path.exists()` of what is no directory
abbrev exists : Files → String → Bool
exists files path = elim (files path) [ absent ↦ false | unreadable ↦ true | regular _ ↦ true ]

is_hex : ℕ → Bool
is_hex c = leb b'0' c && leb c b'9' || leb b'a' c && leb c b'f' || leb b'A' c && leb c b'F'

-- `re.fullmatch(r"[0-9a-fA-F]{64}", text)`
unfoldable pub is_pin : String → Bool
unfolding is_hex
is_pin s = length (codes s) == 64 && all is_hex (codes s)

abbrev pub covers : List String → List String → Bool
covers names wanted = all (λ name. contains name names) wanted

-- `set(names) == set(wanted)`
abbrev pub same_set : List String → List String → Bool
same_set names wanted = covers names wanted && covers wanted names

-- A recorded input as it was found: the path and the digest that the manifest records.
pub record Input : Type 0 where
  pub label : String
  pub path : String
  pub checksum : String

-- `_input_state`: whether the manifest passed, and the outcome for each label; with no manifest
-- every label fails.
pub record InputState : Type 0 where
  pub manifest : Checked Fields
  pub inputs : List (String × Checked Input)

abbrev pub passed : String × Checked Input → Bool
passed (label, ok _) = true
passed (label, err _) = false

abbrev pub manifest_passed : Checked Fields → Bool
manifest_passed (ok _) = true
manifest_passed (err _) = false

module _ (host : Host) (paths : Paths) where
  -- `_digest`
  unfoldable pub digest : Files → String → Checked String
  digest files path = elim (files path) [
    | absent ↦ err (missing_file path)
    | unreadable ↦ err (os_error path)
    | regular content ↦ ok (host.sha256 content)
  ]

  abbrev as_record : String → String → Value
  as_record path checksum = obj (field "path" (str path) (field "sha256" (str checksum) end))

  -- The loop of `capture`. `seen` are the labels that have a record already.
  unfoldable pub capture_records : Files → List String → List (String × String) → Checked Fields
  capture_records files seen [] = require (same_set seen labels) missing_labels >> ok end
  capture_records files seen ((label, filename) ∷ rest) = do
    require (contains label labels) (unknown_label label)
    require (not (contains label seen)) (duplicate_label label)
    checksum ← digest files (paths.absolute filename)
    records ← capture_records files (label ∷ seen) rest
    ok (field label (as_record (paths.absolute filename) checksum) records)

  -- `capture`: the digest of the manifest, and the files with the manifest in them
  unfoldable pub capture : Files → String → List (String × String) → Checked (String × Files)
  capture files output inputs = do
    let path = paths.absolute output
    require (not (exists files path) && not (paths.is_symlink path)) (would_overwrite path)
    records ← capture_records files [] inputs
    encoded ←
        elim (host.dump
          (obj (field "schema_version" (int (pos 1)) (field "files" (obj records) end)))) [
            | none ↦ err not_encodable
            | some bytes ↦ ok bytes
          ]
    require (host.writable path) (os_error path)
    ok (host.sha256 encoded, replace files path encoded)

  abbrev pub path_of : String → Value → Checked String
  path_of label (str filename) =
      require (paths.is_absolute filename) (path_not_absolute label) >> ok filename
  path_of label _ = err (path_not_absolute label)

  abbrev pub sha256_of : String → Value → Checked String
  sha256_of label (str checksum) = require (is_sha256 checksum) (record_sha256 label) >> ok checksum
  sha256_of label _ = err (record_sha256 label)

  -- the body of the loop over the labels
  unfoldable pub check_input : Files → String → Value → Checked Input
  check_input files label (obj file) = do
    filename ← path_of label (get "path" file)
    checksum ← sha256_of label (get "sha256" file)
    actual ← digest files filename
    require (str_eq actual checksum) (input_mismatch label)
    ok (record { label = label; path = filename; checksum = checksum })
  check_input files label _ = err (record_not_object label)

  -- the outcome for each label, in the order of `LABELS`
  unfoldable pub check_inputs : Files → Fields → List String → List (String × Checked Input)
  check_inputs files records [] = []
  check_inputs files records (label ∷ rest) =
      (label, check_input files label (get label records)) ∷ check_inputs files records rest

  abbrev records_of : Value → Checked Fields
  records_of (obj manifest) =
      require (is_int 1 (get "schema_version" manifest)) bad_schema
      >> (elim (get "files" manifest) [
        | obj records ↦ require (same_set (keys records) labels) not_six_labels >> ok records
        | _ ↦ err not_six_labels
      ])
  records_of _ = err bad_schema

  abbrev parsed : Bytes → Checked Value
  parsed encoded = elim (host.parse encoded >>= build) [ ok v ↦ ok v | err e ↦ err (bad_json e) ]

  abbrev pub read_manifest_file : String → Entry → Checked Bytes
  read_manifest_file path absent = err (missing_manifest path)
  read_manifest_file path unreadable = err (os_error path)
  read_manifest_file path (regular content) = ok content

  -- the manifest: pinned by its digest, strict JSON, and of exactly the six labels
  unfoldable pub read_manifest : Files → String → String → Checked Fields
  read_manifest files path pin = do
    require (is_pin pin) bad_pin
    encoded ← read_manifest_file path (files path)
    require (str_eq (host.sha256 encoded) (paths.lower pin)) manifest_mismatch
    manifest ← parsed encoded
    records_of manifest

  abbrev pub inputs_of : Files → Checked Fields → List (String × Checked Input)
  inputs_of files (ok records) = check_inputs files records labels
  inputs_of files (err _) = []

  unfoldable pub input_state : Files → String → String → InputState
  unfolding check_inputs
  input_state files run_dir pin =
      let manifest = read_manifest files (paths.join run_dir "inputs.json") pin in
      record { manifest = manifest; inputs = inputs_of files manifest }

  -- `verify_inputs`
  unfoldable pub verify_inputs : Files → String → String → Checked Unit
  unfolding input_state
  verify_inputs files run_dir pin =
      let state = input_state files run_dir pin in
      require (manifest_passed state.manifest && all passed state.inputs) incomplete
