-- ===== src/StageReport/Step.antt =====
-- One level of `_validate_file`, taken apart: what an accepted report has passed, and that the
-- depth limit stops before any prerequisite is read.
use my_ad.Prelude.{
  String, ◌≡◌, refl, ◌<◌, ◌↔◌, Bool, true, not, Option, List, [], ◌∷◌, Result, ok, err, ◌>>=◌,
  >>=-eq-ok, contains, contains_iff, Among, length, ltb, lt→ltb, arith, Result-cases, inl, inr,
  Bool-cases, is_empty, if◌then◌else◌,
}
use my_ad.Json.{Value, null, bool, int, float, str, arr, obj, constant, Fields, build, JsonFault}
use my_ad.Json.Unique.{IsStrict, build_iff}
use my_ad.StageReport.Fault.{Fault}
use my_ad.StageReport.Host.{Bytes, regular, Files, Host}
use my_ad.StageReport.Files.{Checked}
use my_ad.StageReport.Validate.{
  max_prerequisite_depth, as_object, read_report, has_checksum, load_report, report_errors,
  validate_step,
}

pub not-contains : (a : String) (xs : List String) → not (contains a xs) ≡ true → ¬ Among a xs
not-contains a xs h m = clash h ((contains_iff a xs).1 m)
  where
    clash : {b : Bool} → not b ≡ true → b ≡ true → ⊥
    clash n t = ground arith

pub not-contains_of : (a : String) (xs : List String) → ¬ Among a xs → not (contains a xs) ≡ true
not-contains_of a xs h = elim (Bool-cases (contains a xs)) [
  | inl e ↦ absurd (h ((contains_iff a xs).0 e))
  | inr e ↦ rw e
]

module _ (host : Host) (files : Files) where
  as_object-eq-ok :
      (path : String) (r : Result JsonFault Value) {report : Fields}
      → as_object host files path r ≡ ok report
      → r ≡ ok (obj report)
  as_object-eq-ok path (ok (obj fields)) h = cc
  as_object-eq-ok path (ok null) h = cc
  as_object-eq-ok path (ok (bool _)) h = cc
  as_object-eq-ok path (ok (int _)) h = cc
  as_object-eq-ok path (ok (float _)) h = cc
  as_object-eq-ok path (ok (str _)) h = cc
  as_object-eq-ok path (ok (arr _)) h = cc
  as_object-eq-ok path (ok (constant _)) h = cc
  as_object-eq-ok path (err e) h = cc

  -- A report that loads is the tree that the parser read, and it is strict.
  pub load_report_iff :
      (path : String) (raw : Bytes) (report : Fields)
      → (load_report host files path raw ≡ ok report)
        ↔ ((host.parse raw ≡ ok (obj report)) × IsStrict (obj report))
  unfolding load_report
  load_report_iff path raw report = (
    λ h.
        let (tree, parsed, built) =
          >>=-eq-ok (host.parse raw) build (as_object-eq-ok path (host.parse raw >>= build) h) in
        let (same, strict) = (build_iff tree (obj report)).0 built in
        (rw (← same) at parsed, rw (← same) at strict),
    λ h. rw (h.0, (build_iff (obj report) (obj report)).1 (refl, h.1)),
  )

  -- What stands between the call and the checks of the content.
  pub record Passes (ancestors : List String) (path : String) (checksum : Option String)
      (raw : Bytes) (report : Fields) : Type 0 where
    pub fresh : ¬ Among path ancestors
    pub shallow : length ancestors < max_prerequisite_depth
    pub read : files path ≡ regular raw
    pub checked : has_checksum host files checksum raw ≡ true
    pub loaded : load_report host files path raw ≡ ok report

  read_report-eq-ok :
      (path : String) {raw : Bytes}
      → read_report host files path ≡ ok raw
      → files path ≡ regular raw
  unfolding read_report
  read_report-eq-ok path h = ground arith

  read_report_ok :
      (path : String) {raw : Bytes}
      → files path ≡ regular raw
      → read_report host files path ≡ ok raw
  unfolding read_report
  read_report_ok path h = ground arith

  -- The last statement of `_validate_file`.
  verdict :
      (errors : List Fault) (report : Fields) (e : Fault) {r : Fields}
      → (if is_empty errors then ok report else err e) ≡ ok r
      → (report ≡ r) × (errors ≡ [])
  verdict [] report e h = (cc, refl)
  verdict (x ∷ errors) report e h = cc

  module _ (validate : String → Value → Value → Option String → Checked Fields)
      (ancestors : List String) (path : String) (stage_id scope : Value)
      (checksum : Option String) where
    -- An accepted report has passed every test on the way, and its content has no error.
    pub validate_step-eq-ok :
        {report : Fields}
        → validate_step host files validate ancestors path stage_id scope checksum ≡ ok report
        → (raw : Bytes) × Passes ancestors path checksum raw report
          × (report_errors host files validate report path stage_id scope ≡ [])
    unfolding validate_step
    validate_step-eq-ok {report} h = elim (Bool-cases (not (contains path ancestors))) [
      | inr seen ↦ cc (rw seen at h)
      | inl fresh ↦ elim (Bool-cases (ltb (length ancestors) max_prerequisite_depth)) [
        | inr deep ↦ cc (rw (fresh, deep) at h)
        | inl shallow ↦ elim (Result-cases (read_report host files path)) [
          | inr (_, e) ↦ cc (rw (fresh, shallow, e) at h)
          | inl (raw, read) ↦ elim (Bool-cases (has_checksum host files checksum raw)) [
            | inr other ↦ cc (rw (fresh, shallow, read, other) at h)
            | inl checked ↦ elim (Result-cases (load_report host files path raw)) [
              | inr (_, e) ↦ cc (rw (fresh, shallow, read, checked, e) at h)
              | inl (loaded, load) ↦
                  let (same, clean) =
                    verdict _ loaded _ (rw (fresh, shallow, read, checked, load) at h) in
                  (
                    raw,
                    record {
                      fresh = not-contains path ancestors fresh;
                      shallow = ground arith;
                      read = read_report-eq-ok path read;
                      checked = checked;
                      loaded = rw same at load;
                    },
                    rw same at clean,
                  )
            ]
          ]
        ]
      ]
    ]

    pub validate_step_ok :
        {raw : Bytes} {report : Fields}
        → Passes ancestors path checksum raw report
        → report_errors host files validate report path stage_id scope ≡ []
        → validate_step host files validate ancestors path stage_id scope checksum ≡ ok report
    unfolding validate_step
    validate_step_ok {raw} {report} p e = rw (
      not-contains_of path ancestors p.fresh,
      lt→ltb (length ancestors) max_prerequisite_depth p.shallow,
      read_report_ok path p.read,
      p.checked,
      p.loaded,
      e,
    )
