-- ===== src/StageReport/Sound.antt =====
-- stage_report.py, `_validate_file`: derivations of `Verified` from what it accepts.
use my_ad.Prelude.{
  ℕ, zero, suc, String, ◌≡◌, refl, sym, ap, ◌∙◌, subst, Among, true, not, ◌&&◌, Option, none, some,
  List, [], ◌∷◌, ◌++◌, ok, >>=-eq-ok, append-eq-nil, contains, str_eq_iff, &&-eq-true,
}
use my_ad.Json.{Value, null, str, arr, obj, Items, nil, cons, Fields, get, is_text}
use my_ad.StageReport.Fault.{prerequisite, no_expected_identity, duplicate_prerequisite}
use my_ad.StageReport.Host.{Bytes, Files, Host}
use my_ad.StageReport.Files.{Checked, file_identity}
use my_ad.StageReport.Content.{
  collect, text_of, next_seen, check_prerequisite, each_prerequisite, prerequisite_errors_of,
  prerequisite_errors,
}
use my_ad.StageReport.Validate.{has_checksum, validate_file}
use my_ad.StageReport.Verified.{IsText, IsFileRecord, Verified, verified, VerifiedAll, done, more}
use my_ad.StageReport.Step.{not-contains, load_report_iff, validate_step-eq-ok}
use my_ad.StageReport.Blocks.{is_text_iff, obj_injective}
use my_ad.StageReport.FileBlocks.{collect_iff, file_identity_sound}
use my_ad.Prelude.{require-then}
use my_ad.StageReport.ContentBlock.{report_iff}

module _ (host : Host) (files : Files) where
  checksum_sound :
      (checksum : Option String) (raw : Bytes)
      → has_checksum host files checksum raw ≡ true
      → (c : String) → checksum ≡ some c
      → host.sha256 raw ≡ c
  checksum_sound none raw h c e = cc
  checksum_sound (some d) raw h c e = (str_eq_iff (host.sha256 raw) d).0 h ∙ some_injective e
    where
      some_injective : {x y : String} → some x ≡ some y → x ≡ y
      some_injective p = cc

  module _ (ancestors : List String)
      (validate : String → Value → Value → Option String → Checked Fields)
      (sound : (path : String) (stage_id scope : Value) (checksum : Option String) (report : Fields)
        → validate path stage_id scope checksum ≡ ok report
        → Verified host files ancestors path stage_id scope checksum report) where
    -- What one round of the loop over the prerequisites has established.
    record Accepts (path : String) (seen : List String) (item : Fields) : Type 0 where
      stage : String
      scope : String
      is_stage : get "stage_id" item ≡ str stage
      is_scope : get "scope" item ≡ str scope
      stage_visible : IsText stage
      scope_visible : IsText scope
      fresh : ¬ Among stage seen
      file : String
      checksum : String
      identity : IsFileRecord host files item (host.parent path) file checksum
      report : Fields
      valid : Verified host files ancestors file (str stage) (str scope) (some checksum) report

    check_prerequisite_sound :
        (path : String) (seen : List String) (item : Fields) {u : Unit {0}}
        → check_prerequisite host files validate path seen (obj item) ≡ ok u
        → Accepts path seen item
    check_prerequisite_sound path seen item c0 =
        let (texts, c1) =
          (require-then (is_text (get "stage_id" item) && is_text (get "scope" item))
              no_expected_identity _).0
            c0 in
        let (fresh, c2) =
          (require-then (not (contains (text_of (get "stage_id" item)) seen))
              (duplicate_prerequisite (text_of (get "stage_id" item))) _).0
            c1 in
        let ((p, c), identity, c3) =
          >>=-eq-ok (file_identity host (obj item) (host.parent path)) _ c2 in
        let (report, valid, _) =
          >>=-eq-ok (validate p (get "stage_id" item) (get "scope" item) (some c)) _ c3 in
        let (a, b) =
          (&&-eq-true (is_text (get "stage_id" item)) (is_text (get "scope" item))).0 texts in
        let stage = (is_text_iff (get "stage_id" item)).0 a in
        let scope = (is_text_iff (get "scope" item)).0 b in
        let (other, same, identified) =
          file_identity_sound host files (obj item) (host.parent path) p c identity in
        record {
          stage = stage.text;
          scope = scope.text;
          is_stage = stage.is_str;
          is_scope = scope.is_str;
          stage_visible = stage.visible;
          scope_visible = scope.visible;
          fresh =
              subst (λ (t : String). ¬ Among t seen) (ap text_of stage.is_str)
                (not-contains (text_of (get "stage_id" item)) seen fresh);
          file = p;
          checksum = c;
          identity =
              subst (λ (i : Fields). IsFileRecord host files i (host.parent path) p c)
                (sym (obj_injective same)) identified;
          report = report;
          valid = sound p (str stage.text) (str scope.text) (some c) report (
              ap (λ (v : Value). validate p v (str scope.text) (some c)) (sym stage.is_str)
              ∙ (ap (λ (v : Value). validate p (get "stage_id" item) v (some c)) (sym scope.is_str)
                  ∙ valid));
        }

    next_seen-Accepts :
        (path : String) (seen : List String) (item : Fields) (a : Accepts path seen item)
        → next_seen seen (obj item) ≡ a.stage ∷ seen
    next_seen-Accepts path seen item a =
        rw
          (
            (is_text_iff (get "stage_id" item)).1
                (record { text = a.stage; is_str = a.is_stage; visible = a.stage_visible }),
            (is_text_iff (get "scope" item)).1
                (record { text = a.scope; is_str = a.is_scope; visible = a.scope_visible }),
            a.is_stage,
          )
          refl

    each_prerequisite_sound :
        (path : String) (index : ℕ) (seen : List String) (items : Items)
        → each_prerequisite host files validate path index seen items ≡ []
        → VerifiedAll host files ancestors (host.parent path) seen items
    unfolding each_prerequisite
    each_prerequisite_sound path index seen nil h = done
    each_prerequisite_sound path index seen (cons (obj item) rest) h =
        let (first, others) =
          (append-eq-nil
              (collect (prerequisite index)
                (check_prerequisite host files validate path seen (obj item)))
              (each_prerequisite host files validate path (suc index) (next_seen seen (obj item))
                rest)).0
            h in
        let (_, c) =
          (collect_iff (prerequisite index)
              (check_prerequisite host files validate path seen (obj item))).0
            first in
        go (check_prerequisite_sound path seen item c)
          (each_prerequisite_sound path (suc index) (next_seen seen (obj item)) rest others)
      where
        go :
            Accepts path seen item
            → VerifiedAll host files ancestors (host.parent path) (next_seen seen (obj item)) rest
            → VerifiedAll host files ancestors (host.parent path) seen (cons (obj item) rest)
        go a below =
            more a.stage a.scope a.is_stage a.is_scope a.stage_visible a.scope_visible a.fresh
              a.identity a.valid
              (subst
                (λ (l : List String). VerifiedAll host files ancestors (host.parent path) l rest)
                (next_seen-Accepts path seen item a) below)
    each_prerequisite_sound path index seen (cons null rest) h = cc
    each_prerequisite_sound path index seen (cons _ rest) h = cc

    pub prerequisite_errors_sound :
        (path : String) (report : Fields)
        → prerequisite_errors host files validate path report ≡ []
        → (items : Items) × (get "prerequisites" report ≡ arr items)
          × VerifiedAll host files ancestors (host.parent path) [] items
    unfolding prerequisite_errors
    prerequisite_errors_sound path report h = to (get "prerequisites" report) refl h
      where
        to :
            (v : Value)
            → get "prerequisites" report ≡ v
            → prerequisite_errors_of host files validate path v ≡ []
            → (items : Items) × (get "prerequisites" report ≡ arr items)
              × VerifiedAll host files ancestors (host.parent path) [] items
        to (arr items) e p = (items, e, each_prerequisite_sound path 0 [] items p)
        to null e p = cc
        to _ e p = cc

  -- Whatever report `_validate_file` accepts, on any fuel, is verified: its header, command,
  -- sources, checks and evidence are complete, and so is every prerequisite in its turn.
  pub validate_file_sound :
      (fuel : ℕ) (ancestors : List String) (path : String) (stage_id scope : Value)
      (checksum : Option String) (report : Fields)
      → validate_file host files fuel ancestors path stage_id scope checksum ≡ ok report
      → Verified host files ancestors path stage_id scope checksum report
  unfolding validate_file
  validate_file_sound zero ancestors path stage_id scope checksum report h = cc
  validate_file_sound (suc fuel) ancestors path stage_id scope checksum report h =
      let validate = validate_file host files fuel (ancestors ++ path ∷ []) in
      let (raw, passes, clean) =
        validate_step-eq-ok host files validate ancestors path stage_id scope checksum h in
      let (complete, prerequisites, status, errors) =
        (report_iff host files validate report path stage_id scope).0 clean in
      let (items, listed, all) =
        prerequisite_errors_sound (ancestors ++ path ∷ []) validate
          (validate_file_sound fuel (ancestors ++ path ∷ [])) path report prerequisites in
      let (parsed, strict) = (load_report_iff host files path raw report).0 passes.loaded in
      verified raw items passes.fresh passes.shallow passes.read
        (checksum_sound checksum raw passes.checked) parsed strict complete listed all status errors
