-- ===== src/StageReport/Fuel.antt =====
-- stage_report.py, `_validate_file`: the fuel of its model and the depth limit.
use mathlib.Core.Path.{fun_ext}
use my_ad.Prelude.{
  ℕ, zero, suc, ◌+◌, ◌≤◌, ◌<◌, String, ◌≡◌, refl, ap, false, not, Option, List, [], ◌∷◌, ◌++◌,
  contains, length, length-append, ltb, arith, inl, inr, Bool-cases,
}
use my_ad.Json.{Value, Fields}
use my_ad.StageReport.Host.{Files, Host}
use my_ad.StageReport.Files.{Checked}
use my_ad.StageReport.Validate.{max_prerequisite_depth, validate_step, validate_file}

module _ (host : Host) (files : Files) where
  -- Past the depth limit a report is refused before the first prerequisite.
  validate_step-deep :
      (f g : String → Value → Value → Option String → Checked Fields) (ancestors : List String)
      (path : String) (stage_id scope : Value) (checksum : Option String)
      → ltb (length ancestors) max_prerequisite_depth ≡ false
      → validate_step host files f ancestors path stage_id scope checksum
        ≡ validate_step host files g ancestors path stage_id scope checksum
  unfolding validate_step
  validate_step-deep f g ancestors path stage_id scope checksum h =
      elim (Bool-cases (not (contains path ancestors))) [
        | inl e ↦ rw (e, h) refl
        | inr e ↦ rw e refl
      ]

  -- With no more ancestors than the limit, any two amounts of fuel that reach past it give the same result, whatever the
  -- files hold, cycles among them included: the recursion ends by its own tests.
  pub validate_file-fuel :
      (m n : ℕ) (ancestors : List String) (path : String) (stage_id scope : Value)
      (checksum : Option String)
      → length ancestors ≤ max_prerequisite_depth
      → max_prerequisite_depth < m + length ancestors
      → max_prerequisite_depth < n + length ancestors
      → validate_file host files m ancestors path stage_id scope checksum
        ≡ validate_file host files n ancestors path stage_id scope checksum
  unfolding validate_file
  validate_file-fuel zero n ancestors path stage_id scope checksum h p q = absurd (omega arith)
  validate_file-fuel (suc m) zero ancestors path stage_id scope checksum h p q =
      absurd (omega arith)
  validate_file-fuel (suc m) (suc n) ancestors path stage_id scope checksum h p q =
      elim (Bool-cases (ltb (length ancestors) max_prerequisite_depth)) [
        | inl shallow ↦
            ap (λ v. validate_step host files v ancestors path stage_id scope checksum)
              (fun_ext λ w. fun_ext λ s. fun_ext λ t. fun_ext λ c.
                validate_file-fuel m n (ancestors ++ path ∷ []) w s t c
                  (ground (arith, length-append ancestors (path ∷ [])))
                  (ground (arith, length-append ancestors (path ∷ [])))
                  (ground (arith, length-append ancestors (path ∷ []))))
        | inr deep ↦
            validate_step-deep (validate_file host files m (ancestors ++ path ∷ []))
              (validate_file host files n (ancestors ++ path ∷ [])) ancestors path stage_id scope
              checksum deep
      ]
