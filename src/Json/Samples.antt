-- ===== src/Json/Samples.antt =====
-- Strict JSON at one value.
use my_ad.Prelude.{◌≡◌, ◌↔◌, ok}
use my_ad.Prelude.Int.{pos}
use my_ad.Json.{Value, int, obj, end, field, build}
use my_ad.Json.Unique.{IsStrict, build_iff}

abbrev twice : Value
twice = obj (field "a" (int (pos 1)) (field "a" (int (pos 2)) end))

build_iff_example : (build twice ≡ ok twice) ↔ ((twice ≡ twice) × IsStrict twice)
build_iff_example = build_iff twice twice
