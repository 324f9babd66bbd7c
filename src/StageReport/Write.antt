-- ===== src/StageReport/Write.antt =====
-- stage_report.py, `write_report`: the report is built, judged by `_content_errors`, and replaces
-- the file at the output path, whether it says PASS or FAIL.
use my_ad.Prelude.{
  String, List, [], ◌∷◌, none, some, ok, err, ◌>>=◌, ◌>>◌, require, is_empty, str_eq, if◌then◌else◌,
}
use my_ad.Prelude.Int.{pos}
use my_ad.Json.{Value, int, str, arr, obj, Items, nil, cons, Fields, end, field}
use my_ad.StageReport.Fault.{Fault, os_error, not_json}
use my_ad.StageReport.Host.{Bytes, regular, Files, Host}
use my_ad.StageReport.Files.{Checked, resolve, snapshot}
use my_ad.StageReport.Content.{content_errors}
use my_ad.StageReport.Validate.{max_prerequisite_depth, validate_file}

-- One entry of `prerequisites`.
pub record Prerequisite : Type 0 where
  pub stage_id : Value
  pub scope : Value
  pub path : String

-- The keyword arguments of `write_report`, and the time.
pub record Request : Type 0 where
  pub stage_id : Value
  pub scope : Value
  pub exit_code : Value
  pub required_checks : Value
  pub checks : Value
  pub evidence : List (String × String)
  pub sources : Value
  pub command : Value
  pub prerequisites : List Prerequisite
  pub now : String

-- `files` with the content of `path` replaced
unfoldable pub replace : Files → String → Bytes → Files
replace files path content other = if str_eq other path then regular content else files other

module _ (host : Host) (files : Files) where
  unfoldable pub evidence_of : String → List (String × String) → Fields
  evidence_of base [] = end
  evidence_of base ((name, value) ∷ rest) =
      field name (snapshot host files value base) (evidence_of base rest)

  -- `{"stage_id": …, "scope": …, **_snapshot(…)}`
  abbrev entry_of : Value → Value → Value → Value
  entry_of stage_id scope (obj file) = obj (field "stage_id" stage_id (field "scope" scope file))
  entry_of stage_id scope other = other

  unfoldable pub prerequisites_of : String → List Prerequisite → Items
  prerequisites_of base [] = nil
  prerequisites_of base (item ∷ rest) =
      cons (entry_of item.stage_id item.scope (snapshot host files item.path base))
        (prerequisites_of base rest)

  abbrev pub texts_of : List Fault → Items
  texts_of [] = nil
  texts_of (e ∷ es) = cons (str (host.message e)) (texts_of es)

  -- the dict `report`, with the given verdict
  unfoldable pub report_of : Request → String → String → Items → Fields
  unfolding evidence_of prerequisites_of
  report_of q path status errors = field "schema_version" (int (pos 1)) (
      field "stage_id" q.stage_id (
        field "scope" q.scope (
          field "created_at" (str q.now) (
            field "exit_code" q.exit_code (
              field "required_checks" q.required_checks (
                field "checks" q.checks (
                  field "evidence" (obj (evidence_of (host.parent path) q.evidence)) (
                    field "sources" q.sources (
                      field "command" q.command (
                        field "prerequisites"
                          (arr (prerequisites_of (host.parent path) q.prerequisites))
                          (field "status" (str status) (field "errors" (arr errors) end))))))))))))

  -- `_content_errors(report, path, …, ancestors=(path,))`, on the report that still says FAIL
  unfoldable pub write_errors : Request → String → List Fault
  write_errors q path =
      content_errors host files (validate_file host files max_prerequisite_depth (path ∷ []))
        (report_of q path "FAIL" nil) path q.stage_id q.scope

  unfoldable pub written_report : Request → String → Fields
  unfolding write_errors
  written_report q path =
      let errors = write_errors q path in
      if is_empty errors
      then report_of q path "PASS" nil
      else report_of q path "FAIL" (texts_of errors)

  -- `write_report`: the report, and the files afterwards
  unfoldable pub write_report : Request → String → Checked (Fields × Files)
  write_report q output = do
    path ← resolve host (str output) host.cwd
    let report = written_report q path
    encoded ← elim (host.dump (obj report)) [ none ↦ err not_json | some bytes ↦ ok bytes ]
    require (host.writable path) (os_error path)
    ok (report, replace files path encoded)
