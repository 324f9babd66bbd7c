-- ===== src/StageReport/Complete.antt =====
-- stage_report.py, `_validate_file` and `validate_report`, from the derivations of `Verified`.
use my_ad.Prelude.{
  ℕ, zero, suc, ◌+◌, ◌<◌, String, ◌≡◌, ◌↔◌, refl, true, Option, none, some, List, [], ◌∷◌, ◌++◌,
  arith, ok, >>=-eq-ok, length, length-append, str_eq_iff,
}
use my_ad.Json.{Value, str, arr, Items, Fields, get, is_text}
use my_ad.StageReport.Host.{Bytes, Files, Host}
use my_ad.StageReport.Files.{Checked, resolve}
use my_ad.StageReport.Content.{each_prerequisite, prerequisite_errors}
use my_ad.StageReport.Validate.{
  max_prerequisite_depth, enough, has_checksum, validate_file, validate_report,
}
use my_ad.StageReport.Verified.{IsText, Verified, verified, VerifiedAll, done, more}
use my_ad.StageReport.Step.{not-contains_of, load_report_iff, validate_step_ok}
use my_ad.StageReport.Blocks.{is_text_iff}
use my_ad.StageReport.FileBlocks.{file_identity_complete}
use my_ad.StageReport.ContentBlock.{report_iff}
use my_ad.StageReport.Sound.{validate_file_sound}

module _ (host : Host) (files : Files) where
  checksum_complete :
      (checksum : Option String) (raw : Bytes)
      → ((c : String) → checksum ≡ some c → host.sha256 raw ≡ c)
      → has_checksum host files checksum raw ≡ true
  checksum_complete none raw h = refl
  checksum_complete (some c) raw h = (str_eq_iff (host.sha256 raw) c).1 (h c refl)

  is_text-of : {v : Value} {s : String} → v ≡ str s → IsText s → is_text v ≡ true
  is_text-of {v} {s} e visible =
      (is_text_iff v).1 (record { text = s; is_str = e; visible = visible })

  pub prerequisite_errors-of :
      (validate : String → Value → Value → Option String → Checked Fields) (path : String)
      (report : Fields) {items : Items}
      → get "prerequisites" report ≡ arr items
      → each_prerequisite host files validate path 0 [] items ≡ []
      → prerequisite_errors host files validate path report ≡ []
  unfolding prerequisite_errors
  prerequisite_errors-of validate path report e h = rw e h

  mutual
    unfolding validate_file each_prerequisite

    pub complete :
        (fuel : ℕ) {ancestors : List String} {path : String} {stage_id scope : Value}
        {checksum : Option String} {report : Fields}
        → Verified host files ancestors path stage_id scope checksum report
        → max_prerequisite_depth < fuel + length ancestors
        → validate_file host files fuel ancestors path stage_id scope checksum ≡ ok report
    complete zero (verified raw items fresh shallow read sum parsed strict whole listed all s e) h =
        absurd (omega arith)
    complete (suc fuel) {ancestors} {path} {stage_id} {scope} {checksum} {report}
          (verified raw items fresh shallow read sum parsed strict whole listed all s e) h =
        validate_step_ok host files (validate_file host files fuel (ancestors ++ path ∷ []))
          ancestors path stage_id scope checksum
          (record {
            fresh = fresh;
            shallow = shallow;
            read = read;
            checked = checksum_complete checksum raw sum;
            loaded = (load_report_iff host files path raw report).1 (parsed, strict);
          })
          ((report_iff host files (validate_file host files fuel (ancestors ++ path ∷ [])) report
              path stage_id scope).1
            (
              whole,
              prerequisite_errors-of (validate_file host files fuel (ancestors ++ path ∷ [])) path
                  report listed
                  (complete_all fuel path 0 all refl
                    (omega (arith, length-append {0} ancestors (path ∷ [])))),
              s,
              e,
            ))

    pub complete_all :
        (fuel : ℕ) (path : String) (index : ℕ) {ancestors : List String} {base : String}
        {seen : List String} {items : Items}
        → VerifiedAll host files ancestors base seen items
        → base ≡ host.parent path
        → max_prerequisite_depth < fuel + length ancestors
        → each_prerequisite host files
            (validate_file host files fuel ancestors)
            path
            index
            seen
            items
          ≡ []
    complete_all fuel path index done b h = refl
    complete_all fuel path index {ancestors} {seen = seen}
          (more {item = item} {path = p} {checksum = c} stage scope is_stage is_scope t u fresh
            identity below rest)
          b h =
        rw
          (
            is_text-of is_stage t,
            is_text-of is_scope u,
            is_stage,
            not-contains_of stage seen fresh,
            ← b,
            file_identity_complete host files identity,
            is_scope,
            complete fuel below h,
            complete_all fuel path (suc index) rest b h,
          )
          refl

  -- `validate_report` returns a report exactly when the path resolves to a file that holds it and
  -- the report is verified: the identity asked for, a complete content, intact evidence, and every
  -- prerequisite verified in its turn, with no cycle and within the depth limit.
  pub validate_report_iff :
      (path : String) (stage_id scope : Value) (report : Fields)
      → (validate_report host files path stage_id scope ≡ ok report) ↔ (
          (resolved : String) × (resolve host (str path) host.cwd ≡ ok resolved)
          × Verified host files [] resolved stage_id scope none report)
  unfolding validate_report
  validate_report_iff path stage_id scope report = (
    λ h.
        let (resolved, found, accepted) =
          >>=-eq-ok (resolve host (str path) host.cwd)
            (λ r. validate_file host files enough [] r stage_id scope none) h in
        (
          resolved,
          found,
          validate_file_sound host files enough [] resolved stage_id scope none report accepted,
        ),
    λ (resolved, found, v). rw found (complete enough v (omega arith)),
  )
