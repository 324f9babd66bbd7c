-- ===== src/StageReport/Fault.antt =====
-- The exceptions and error messages of stage_report.py, one constructor for each message. The
-- values that the message formats are its fields.
use my_ad.Prelude.{ℕ, String, List}
use my_ad.Json.{Value, JsonFault}

pub data Fault : Type 0 where
  -- raised by the file helpers
  empty_path : Fault
  invalid_path : String → Fault
  not_regular : String → Fault
  os_error : String → Fault
  not_object : Fault
  invalid_sha256 : String → Fault
  -- collected by `_content_errors`
  bad_schema_version : Fault
  wrong_stage_id : Value → Fault
  wrong_scope : Value → Fault
  bad_created_at : Fault
  nonzero_exit_code : Value → Fault
  bad_command : Fault
  no_sources : Fault
  bad_source : String → Fault
  bad_required_checks : Fault
  duplicate_required_checks : Fault
  no_checks : Fault
  missing_check : String → Fault
  undeclared_check : String → Fault
  check_not_pass : String → Value → Fault
  no_evidence : Fault
  missing_evidence : String → Fault
  evidence : String → Fault → Fault
  empty_evidence_name : Fault
  own_evidence : Fault
  sha256_mismatch : String → Fault
  bad_prerequisites : Fault
  prerequisite : ℕ → Fault → Fault
  no_expected_identity : Fault
  duplicate_prerequisite : String → Fault
  -- raised by `_validate_file`
  cycle : String → Fault
  too_deep : Fault
  report_not_regular : String → Fault
  prerequisite_mismatch : String → Fault
  invalid_json : String → JsonFault → Fault
  not_json_object : String → Fault
  status_not_pass : Fault
  errors_not_empty : Fault
  rejected : String → List String → Fault
  -- raised by `json.dumps`
  not_json : Fault
  -- the fuel of the model ran out; no message of the script
  out_of_fuel : Fault
