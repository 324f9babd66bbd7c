-- ===== src/StageReport/Verdict.antt =====
-- What the verdict of `write_report` means, and what the call leaves alone.
use my_ad.Prelude.{
  String, ◌≡◌, ◌≢◌, refl, sym, ap, ◌∙◌, ◌↔◌, true, false, List, [], ◌∷◌, some, ok, str_eq,
  str_eq_ne, str_eq_refl, arith, subst, Option-cases, Bool-cases, Result-cases, inl, inr,
  str_eq_iff,
}
use my_ad.Json.{str, arr, obj, Items, nil, Fields, get}
use my_ad.StageReport.Fault.{Fault}
use my_ad.StageReport.Host.{Bytes, regular, Files, Host}
use my_ad.StageReport.Files.{resolve}
use my_ad.StageReport.Validate.{max_prerequisite_depth, validate_file}
use my_ad.StageReport.Verified.{IsComplete, VerifiedAll}
use my_ad.StageReport.Blocks.{str_injective}
use my_ad.StageReport.ContentBlock.{content_iff}
use my_ad.StageReport.Sound.{validate_file_sound, prerequisite_errors_sound}
use my_ad.StageReport.Complete.{complete_all, prerequisite_errors-of}
use my_ad.Prelude.{ok_injective}
use my_ad.StageReport.Write.{
  Request, replace, texts_of, prerequisites_of, report_of, write_errors, written_report,
  write_report,
}

module _ (host : Host) (files : Files) (q : Request) where
  abbrev items_of : String → Items
  items_of path = prerequisites_of host files (host.parent path) q.prerequisites

  prerequisites-report_of :
      (path status : String) (errors : Items)
      → get "prerequisites" (report_of host files q path status errors) ≡ arr (items_of path)
  unfolding report_of str_eq
  prerequisites-report_of path status errors = refl

  status-report_of :
      (path status : String) (errors : Items)
      → get "status" (report_of host files q path status errors) ≡ str status
  unfolding report_of str_eq
  status-report_of path status errors = refl

  arr_injective : {a b : Items} → arr a ≡ arr b → a ≡ b
  arr_injective e = cc

  -- No error is collected exactly when the content is complete and the prerequisites are verified.
  pub write_errors_iff :
      (path : String)
      → (write_errors host files q path ≡ []) ↔ (
          IsComplete host files path (report_of host files q path "FAIL" nil) q.stage_id q.scope
          × VerifiedAll host files (path ∷ []) (host.parent path) [] (items_of path))
  unfolding write_errors
  write_errors_iff path = (
    λ h.
        let (whole, rest) =
          (content_iff host files (validate_file host files max_prerequisite_depth (path ∷ []))
              (report_of host files q path "FAIL" nil) path q.stage_id q.scope).0
            h in
        let (items, listed, all) =
          prerequisite_errors_sound host files (path ∷ [])
            (validate_file host files max_prerequisite_depth (path ∷ []))
            (validate_file_sound host files max_prerequisite_depth (path ∷ [])) path
            (report_of host files q path "FAIL" nil) rest in
        (
          whole,
          subst (λ (l : Items). VerifiedAll host files (path ∷ []) (host.parent path) [] l)
              (arr_injective (sym listed ∙ prerequisites-report_of path "FAIL" nil)) all,
        ),
    λ (whole, all).
        (content_iff host files (validate_file host files max_prerequisite_depth (path ∷ []))
            (report_of host files q path "FAIL" nil) path q.stage_id q.scope).1
          (
            whole,
            prerequisite_errors-of host files
                (validate_file host files max_prerequisite_depth (path ∷ [])) path
                (report_of host files q path "FAIL" nil) (prerequisites-report_of path "FAIL" nil)
                (complete_all host files max_prerequisite_depth path 0 all refl (omega arith)),
          ),
  )

  fail_ne_pass : str "FAIL" ≡ str "PASS" → ⊥
  unfolding str_eq
  fail_ne_pass e = clash ((str_eq_iff "FAIL" "PASS").1 (str_injective e))
    where
      clash : false ≡ true → ⊥
      clash c = cc

  -- The steps of a call that returns.
  write_report-eq-ok :
      (output : String) {report : Fields} {after : Files}
      → write_report host files q output ≡ ok (report, after)
      → (path : String) × (resolve host (str output) host.cwd ≡ ok path)
        × (report ≡ written_report host files q path)
        × (encoded : Bytes) × (host.dump (obj (written_report host files q path)) ≡ some encoded)
        × (after ≡ replace files path encoded)
  unfolding write_report
  write_report-eq-ok output {report} {after} h =
      elim (Result-cases (resolve host (str output) host.cwd)) [
        | inr (_, e) ↦ cc (rw e at h)
        | inl (path, found) ↦
            elim (Option-cases (host.dump (obj (written_report host files q path)))) [
              | inl none_ ↦ cc (rw (found, none_) at h)
              | inr (encoded, dumped) ↦ elim (Bool-cases (host.writable path)) [
                | inr locked ↦ cc (rw (found, dumped, locked) at h)
                | inl writable ↦
                    let same : ◌≡◌ {A = Fields × Files}
                        (written_report host files q path, replace files path encoded)
                        (report, after) =
                      ok_injective (rw (found, dumped, writable) at h) in
                    (
                      path,
                      found,
                      sym (ap (λ (t : Fields × Files). t.0) same),
                      encoded,
                      dumped,
                      sym (ap (λ (t : Fields × Files). t.1) same),
                    )
              ]
            ]
      ]

  verdict_iff :
      (path : String)
      → (get "status" (written_report host files q path) ≡ str "PASS")
        ↔ (write_errors host files q path ≡ [])
  unfolding written_report
  verdict_iff path = by_errors (write_errors host files q path) refl
    where
      by_errors :
          (errors : List Fault)
          → write_errors host files q path ≡ errors
          → (get "status" (written_report host files q path) ≡ str "PASS")
            ↔ (write_errors host files q path ≡ [])
      by_errors [] e = (λ _. e, λ _. rw (e, written_report) (status-report_of path "PASS" nil))
      by_errors (x ∷ xs) e = (
        λ h. absurd (
            fail_ne_pass (
              rw (e, written_report, status-report_of path "FAIL" (texts_of host files (x ∷ xs))) at
                h)),
        λ h. cc (sym e ∙ h),
      )

  -- A written report says PASS exactly when its content is complete, its evidence is intact and all
  -- of its prerequisites are verified reports of their stages, with the report itself counted as
  -- an ancestor of each.
  pub write_report-pass_iff :
      (output : String) (report : Fields) (after : Files)
      → write_report host files q output ≡ ok (report, after)
      → (path : String) × (resolve host (str output) host.cwd ≡ ok path)
        × ((get "status" report ≡ str "PASS") ↔ (
            IsComplete host files path (report_of host files q path "FAIL" nil) q.stage_id q.scope
            × VerifiedAll host files (path ∷ []) (host.parent path) [] (items_of path)))
  write_report-pass_iff output report after h =
      let (path, found, same, _, _, _) = write_report-eq-ok output h in
      (
        path,
        found,
        (
          λ pass. (write_errors_iff path).0 (
              (verdict_iff path).0 (subst (λ (r : Fields). get "status" r ≡ str "PASS") same pass)),
          λ s.
              subst (λ (r : Fields). get "status" r ≡ str "PASS") (sym same)
                ((verdict_iff path).1 ((write_errors_iff path).1 s)),
        ),
      )

  -- A call that returns changes the file that the output resolves to in the working directory, and no
  -- other; what it stores there is the report that it returns, encoded, PASS or FAIL.
  pub write_report-frame :
      (output : String) (report : Fields) (after : Files)
      → write_report host files q output ≡ ok (report, after)
      → (path : String) × (resolve host (str output) host.cwd ≡ ok path)
        × (encoded : Bytes) × (host.dump (obj report) ≡ some encoded)
        × (after path ≡ regular encoded)
        × ((other : String) → other ≢ path → after other ≡ files other)
  unfolding replace
  write_report-frame output report after h =
      let (path, found, same, encoded, dumped, replaced) = write_report-eq-ok output h in
      (
        path,
        found,
        encoded,
        ap (λ (r : Fields). host.dump (obj r)) same ∙ dumped,
        ap (λ (f : Files). f path) replaced ∙ at_path path encoded,
        λ other ne. ap (λ (f : Files). f other) replaced ∙ elsewhere path encoded other ne,
      )
    where
      at_path :
          (path : String) (encoded : Bytes) → replace files path encoded path ≡ regular encoded
      at_path path encoded = rw (str_eq_refl path) refl

      elsewhere :
          (path : String) (encoded : Bytes) (other : String)
          → other ≢ path
          → replace files path encoded other ≡ files other
      elsewhere path encoded other ne = rw (str_eq_ne other path ne) refl
