-- ===== src/RuntimeConfig/Samples.antt =====
-- One reference replaced, and a stage with none.
use my_ad.Prelude.{◌≡◌, ◌↔◌, refl, true, some, [], ◌∷◌, ok, All, str_eq}
use my_ad.Json.{Value, str, obj, end, field}
use my_ad.StageReport.Host.{regular, Files}
use my_ad.RuntimeConfig.Reference.{
  old_reference, replace_reference, Stage, config_names, find_changes, write_changes, normalize,
}
use my_ad.RuntimeConfig.ReferenceLaws.{IsClean, IsNormal, replace_reference-IsClean, normalize-zero}

abbrev prop : Value
prop = obj (field "mesh" (str old_reference) (field "name" (str "container") end))

replace_reference-IsClean_example :
    ((replace_reference prop).1 ≡ 0 ↔ IsClean prop)
    × (IsClean prop → replace_reference prop ≡ (prop, 0))
    × (replace_reference (replace_reference prop).0 ≡ ((replace_reference prop).0, 0))
replace_reference-IsClean_example = replace_reference-IsClean prop

abbrev stage : Stage
stage = record {
  has_asset = true;
  join = λ name. name;
  parse = λ text. some (obj (field "mesh" (str "container") end));
  dump = λ value. [];
  writable = λ path. true;
}

abbrev files : Files
files path = regular (1 ∷ [])

normalized : normalize stage files ≡ ok (0, files)
unfolding normalize find_changes write_changes replace_reference config_names str_eq
normalized = refl

normalize-zero_example : (files ≡ files) × All (IsNormal stage files) config_names
normalize-zero_example = normalize-zero stage files files normalized
