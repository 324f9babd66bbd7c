-- ===== src/StageReport/Samples.antt =====
-- stage_report.py: one machine with a single report that passes, and the theorems at it.
use my_ad.Prelude.{
  String, ◌≡◌, ◌≢◌, ◌↔◌, refl, true, none, some, [], ◌∷◌, ok, arith, contains, is_space, is_blank,
  is_sha256, str_eq,
}
use my_ad.Prelude.Int.{pos}
use my_ad.Json.{
  int, str, arr, obj, nil, cons, Fields, end, field, get, is_text, is_int, is_str, is_string,
  unique_object, build,
}
use my_ad.StageReport.Host.{Bytes, regular, Files, Host}
use my_ad.StageReport.Files.{resolve, digest, snapshot, file_identity}
use my_ad.StageReport.Content.{
  header_errors, command_errors, each_source, source_errors, required_names, required_errors,
  missing, each_check, check_errors, distinct, each_evidence, evidence_errors, each_prerequisite,
  prerequisite_errors, content_errors,
}
use my_ad.StageReport.Validate.{
  read_report, load_report, report_errors, validate_step, validate_file, validate_report,
}
use my_ad.StageReport.Verified.{IsComplete, Verified, VerifiedAll}
use my_ad.StageReport.Write.{
  Request, replace, evidence_of, prerequisites_of, report_of, write_errors, written_report,
  write_report,
}
use my_ad.StageReport.Fuel.{validate_file-fuel}
use my_ad.StageReport.Complete.{validate_report_iff}
use my_ad.StageReport.Verdict.{write_report-pass_iff, write_report-frame}

abbrev checksum : String
checksum = "0123456789abcdef0123456789abcdef0123456789abcdef0123456789abcdef"

abbrev report : Fields
report = field "schema_version" (int (pos 1)) (
    field "stage_id" (str "build") (
      field "scope" (str "linux") (
        field "created_at" (str "2025-01-01T00:00:00+00:00") (
          field "exit_code" (int (pos 0)) (
            field "required_checks" (arr (cons (str "log") nil)) (
              field "checks" (obj (field "log" (str "PASS") end)) (
                field "evidence"
                  (obj (
                    field "log"
                      (obj (field "path" (str "build.log") (field "sha256" (str checksum) end)))
                      end))
                  (field "sources"
                    (obj (
                      field "carla"
                        (obj
                          (field "location" (str "/src/carla") (field "revision" (str "a1") end)))
                        end))
                    (field "command" (arr (cons (str "make") nil)) (
                      field "prerequisites" (arr nil)
                        (field "status" (str "PASS") (field "errors" (arr nil) end))))))))))))

abbrev machine : Host
machine = record {
  resolve = λ base value. some value;
  parent = λ path. "/runs";
  relpath = λ path base. path;
  cwd = "/runs";
  sha256 = λ content. checksum;
  parse = λ raw. ok (obj report);
  dump = λ value. some (123 ∷ []);
  writable = λ path. true;
  utcoffset = λ text. some true;
  message = λ fault. "rejected";
}

abbrev files : Files
files path = regular (1 ∷ [])

accepted : validate_report machine files "build.json" (str "build") (str "linux") ≡ ok report
unfolding validate_report validate_file validate_step resolve read_report load_report report_errors
    digest file_identity header_errors command_errors each_source source_errors required_names
    required_errors missing each_check check_errors distinct each_evidence evidence_errors
    each_prerequisite prerequisite_errors content_errors is_text is_int is_str is_string
    unique_object build str_eq is_space is_blank is_sha256 contains
accepted = refl

validate_report_iff_example :
    (validate_report machine files "build.json" (str "build") (str "linux") ≡ ok report) ↔ (
      (resolved : String) × (resolve machine (str "build.json") "/runs" ≡ ok resolved)
      × Verified machine files [] resolved (str "build") (str "linux") none report)
validate_report_iff_example =
    validate_report_iff machine files "build.json" (str "build") (str "linux") report

validate_file-fuel_example :
    validate_file machine files 33 [] "build.json" (str "build") (str "linux") none
    ≡ validate_file machine files 40 [] "build.json" (str "build") (str "linux") none
validate_file-fuel_example =
    validate_file-fuel machine files 33 40 [] "build.json" (str "build") (str "linux") none
      (omega arith) (omega arith) (omega arith)

abbrev request : Request
request = record {
  stage_id = str "build";
  scope = str "linux";
  exit_code = int (pos 0);
  required_checks = arr (cons (str "log") nil);
  checks = obj (field "log" (str "PASS") end);
  evidence = ("log", "build.log") ∷ [];
  sources = obj (
      field "carla" (obj (field "location" (str "/src/carla") (field "revision" (str "a1") end)))
        end);
  command = arr (cons (str "make") nil);
  prerequisites = [];
  now = "2025-01-01T00:00:00+00:00";
}

abbrev written : Fields
written = report_of machine files request "build.json" "PASS" nil

abbrev after : Files
after = replace files "build.json" (123 ∷ [])

wrote : write_report machine files request "build.json" ≡ ok (written, after)
unfolding write_report written_report write_errors report_of evidence_of prerequisites_of snapshot
    content_errors resolve digest file_identity header_errors command_errors each_source
    source_errors required_names required_errors missing each_check check_errors distinct
    each_evidence evidence_errors each_prerequisite prerequisite_errors is_text is_int is_str
    is_string str_eq is_space is_blank is_sha256 contains
wrote = refl

write_report-pass_iff_example :
    (path : String) × (resolve machine (str "build.json") "/runs" ≡ ok path)
    × ((get "status" written ≡ str "PASS") ↔ (
        IsComplete machine files path
          (report_of machine files request path "FAIL" nil)
          (str "build")
          (str "linux")
        × VerifiedAll machine files
            (path ∷ [])
            "/runs"
            []
            (prerequisites_of machine files "/runs" [])))
write_report-pass_iff_example =
    write_report-pass_iff machine files request "build.json" written after wrote

write_report-frame_example :
    (path : String) × (resolve machine (str "build.json") machine.cwd ≡ ok path)
    × (encoded : Bytes) × (machine.dump (obj written) ≡ some encoded)
    × (after path ≡ regular encoded)
    × ((other : String) → other ≢ path → after other ≡ files other)
write_report-frame_example =
    write_report-frame machine files request "build.json" written after wrote
