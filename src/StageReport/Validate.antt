-- ===== src/StageReport/Validate.antt =====
-- stage_report.py, `_validate_file` and `validate_report`.
use my_ad.Prelude.{
  ℕ, zero, suc, String, Bool, true, false, not, Option, none, some, List, [], ◌∷◌, ◌++◌, map,
  Result, ok, err, ◌>>=◌, ◌>>◌, require, contains, str_eq, is_empty, length, ltb, if◌then◌else◌,
}
use my_ad.Json.{Value, str, arr, obj, nil, Fields, get, is_str, build, JsonFault}
use my_ad.StageReport.Fault.{
  Fault, os_error, cycle, too_deep, report_not_regular, prerequisite_mismatch, invalid_json,
  not_json_object, status_not_pass, errors_not_empty, rejected, out_of_fuel,
}
use my_ad.StageReport.Host.{Bytes, absent, unreadable, regular, Files, Host}
use my_ad.StageReport.Files.{Checked, resolve}
use my_ad.StageReport.Content.{demand, content_errors}

abbrev pub max_prerequisite_depth : ℕ
max_prerequisite_depth = 32

-- One more than the depth limit.
abbrev pub enough : ℕ
enough = suc max_prerequisite_depth

-- `value == []`
abbrev pub is_nil : Value → Bool
is_nil (arr nil) = true
is_nil _ = false

module _ (host : Host) (files : Files) where
  -- `path.is_file()` and `path.read_bytes()`
  unfoldable pub read_report : String → Checked Bytes
  read_report path = elim (files path) [
    | absent ↦ err (report_not_regular path)
    | unreadable ↦ err (os_error path)
    | regular raw ↦ ok raw
  ]

  -- `checksum is None or hashlib.sha256(raw).hexdigest() == checksum`
  abbrev pub has_checksum : Option String → Bytes → Bool
  has_checksum none raw = true
  has_checksum (some checksum) raw = str_eq (host.sha256 raw) checksum

  abbrev pub as_object : String → Result JsonFault Value → Checked Fields
  as_object path (ok (obj report)) = ok report
  as_object path (ok _) = err (not_json_object path)
  as_object path (err e) = err (invalid_json path e)

  unfoldable pub load_report : String → Bytes → Checked Fields
  unfolding build
  load_report path raw = as_object path (host.parse raw >>= build)

  -- the errors of a report that is read back, its own verdict included
  unfoldable pub report_errors :
      (String → Value → Value → Option String → Checked Fields)
      → Fields
      → String
      → Value
      → Value
      → List Fault
  report_errors validate report path stage_id scope =
      content_errors host files validate report path stage_id scope
      ++ (demand (is_str "PASS" (get "status" report)) status_not_pass
          ++ demand (is_nil (get "errors" report)) errors_not_empty)

  -- the body of `_validate_file`, over the call that it makes for each prerequisite
  unfoldable pub validate_step :
      (String → Value → Value → Option String → Checked Fields)
      → List String
      → String
      → Value
      → Value
      → Option String
      → Checked Fields
  validate_step validate ancestors path stage_id scope checksum = do
    require (not (contains path ancestors)) (cycle path)
    require (ltb (length ancestors) max_prerequisite_depth) too_deep
    raw ← read_report path
    require (has_checksum checksum raw) (prerequisite_mismatch path)
    report ← load_report path raw
    let errors = report_errors validate report path stage_id scope
    if is_empty errors then ok report else err (rejected path (map host.message errors))

  -- `_validate_file`, on fuel: one unit for each report on the way down
  unfoldable pub validate_file :
      ℕ → List String → String → Value → Value → Option String → Checked Fields
  unfolding validate_step
  validate_file zero ancestors path stage_id scope checksum = err out_of_fuel
  validate_file (suc fuel) ancestors path stage_id scope checksum =
      validate_step (validate_file fuel (ancestors ++ path ∷ [])) ancestors path stage_id scope
        checksum

  -- `validate_report`. An OSError is turned into a ReportError; both are a `Fault` here.
  unfoldable pub validate_report : String → Value → Value → Checked Fields
  validate_report path stage_id scope = do
    resolved ← resolve host (str path) host.cwd
    validate_file enough [] resolved stage_id scope none
