-- ===== src/StageReport/ContentBlock.antt =====
-- `_content_errors` and the verdict of a report that is read back, block by block.
use my_ad.Prelude.{String, ◌≡◌, refl, ◌↔◌, true, Option, [], append-eq-nil}
use my_ad.Json.{Value, null, str, arr, nil, cons, Fields, get, is_str}
use my_ad.StageReport.Fault.{status_not_pass, errors_not_empty}
use my_ad.StageReport.Host.{Files, Host}
use my_ad.StageReport.Files.{Checked}
use my_ad.StageReport.Content.{
  header_errors, command_errors, source_errors, required_errors, check_errors, evidence_errors,
  prerequisite_errors, content_errors,
}
use my_ad.StageReport.Validate.{is_nil, report_errors}
use my_ad.StageReport.Verified.{IsComplete}
use my_ad.StageReport.Blocks.{
  demand_iff, demand-append, is_str_iff, header_iff, command_iff, source_iff,
}
use my_ad.StageReport.CheckBlocks.{required_sound, required_complete, check_iff}
use my_ad.StageReport.FileBlocks.{evidence_iff}

is_nil_iff : (v : Value) → (is_nil v ≡ true) ↔ (v ≡ arr nil)
is_nil_iff (arr nil) = (λ h. refl, λ h. refl)
is_nil_iff (arr (cons x xs)) = (λ h. cc, λ h. cc)
is_nil_iff null = (λ h. cc, λ h. cc)
is_nil_iff _ = (λ h. cc, λ h. cc)

module _ (host : Host) (files : Files)
    (validate : String → Value → Value → Option String → Checked Fields) (report : Fields)
    (path : String) (stage_id scope : Value) where
  -- The content has no error exactly when everything but the prerequisites is complete, and the
  -- loop over the prerequisites collects nothing.
  pub content_iff : (content_errors host files validate report path stage_id scope ≡ []) ↔ (
      IsComplete host files path report stage_id scope
      × (prerequisite_errors host files validate path report ≡ []))
  unfolding content_errors
  content_iff = (
    λ h.
        let (a, h1) = (append-eq-nil (header_errors host report stage_id scope) _).0 h in
        let (b, h2) = (append-eq-nil (command_errors report) _).0 h1 in
        let (c, h3) = (append-eq-nil (source_errors report) _).0 h2 in
        let (d, h4) = (append-eq-nil (required_errors report) _).0 h3 in
        let (e, h5) = (append-eq-nil (check_errors report) _).0 h4 in
        let (f, g) = (append-eq-nil (evidence_errors host files path report) _).0 h5 in
        let (names, r) = required_sound report d in
        let checks = (check_iff report names r).0 e in
        (
          record {
            header = (header_iff host report stage_id scope).0 a;
            command = (command_iff report).0 b;
            sources = (source_iff report).0 c;
            names = names;
            required = r;
            checks = checks;
            evidence = (evidence_iff host files path r checks).0 f;
          },
          g,
        ),
    λ (s, g). (append-eq-nil (header_errors host report stage_id scope) _).1 (
      (header_iff host report stage_id scope).1 s.header,
      (append-eq-nil (command_errors report) _).1 (
        (command_iff report).1 s.command,
        (append-eq-nil (source_errors report) _).1 (
          (source_iff report).1 s.sources,
          (append-eq-nil (required_errors report) _).1 (
            required_complete s.required,
            (append-eq-nil (check_errors report) _).1 (
              (check_iff report s.names s.required).1 s.checks,
              (append-eq-nil (evidence_errors host files path report) _).1
                  ((evidence_iff host files path s.required s.checks).1 s.evidence, g),
            ),
          ),
        ),
      ),
    ),
  )

  -- A report that is read back must also say PASS, with no errors.
  pub report_iff : (report_errors host files validate report path stage_id scope ≡ []) ↔ (
      IsComplete host files path report stage_id scope
      × (prerequisite_errors host files validate path report ≡ [])
      × (get "status" report ≡ str "PASS")
      × (get "errors" report ≡ arr nil))
  unfolding report_errors
  report_iff = (
    λ h.
        let (a, rest) =
          (append-eq-nil (content_errors host files validate report path stage_id scope) _).0 h in
        let (b, c) =
          (demand-append (is_str "PASS" (get "status" report)) status_not_pass _).0 rest in
        let (complete, prerequisites) = content_iff.0 a in
        (
          complete,
          prerequisites,
          (is_str_iff "PASS" (get "status" report)).0 b,
          (is_nil_iff (get "errors" report)).0 ((demand_iff _ errors_not_empty).0 c),
        ),
    λ (complete, prerequisites, status, errors).
        (append-eq-nil (content_errors host files validate report path stage_id scope) _).1 (
          content_iff.1 (complete, prerequisites),
          (demand-append (is_str "PASS" (get "status" report)) status_not_pass _).1 (
            (is_str_iff "PASS" (get "status" report)).1 status,
            (demand_iff _ errors_not_empty).1 ((is_nil_iff (get "errors" report)).1 errors),
          ),
        ),
  )
