-- ===== src/RuntimeGate/ProvenanceLaws.antt =====
-- What an accepted provenance names.
use my_ad.Prelude.{String, ◌≡◌, refl, sym, ap, ◌∙◌, true, ok, >>=-eq-ok}
use my_ad.Json.{Value, null, obj, Fields, end, field, get, is_text, is_int}
use my_ad.Prelude.{require-then, ok_injective}
use my_ad.RuntimeGate.Payload.{bad_schema, empty_field, check_source, sources_of, read_provenance}

-- The record of the source has a location and a revision.
pub record IsLocated (sources : Fields) (name : String) (source : Fields) : Type 0 where
  pub listed : get name sources ≡ obj source
  pub location : is_text (get "location" source) ≡ true
  pub revision : is_text (get "revision" source) ≡ true

check_source_sound :
    (sources : Fields) (name : String) (v : Value) {source : Fields}
    → get name sources ≡ v
    → check_source name v ≡ ok source
    → IsLocated sources name source
check_source_sound sources name (obj s) {source} e h =
    let (a, h1) = (require-then (is_text (get "location" s)) (empty_field name "location") _).0 h in
    let (b, h2) =
      (require-then (is_text (get "revision" s)) (empty_field name "revision") _).0 h1 in
    let same = ok_injective h2 in
    record {
      listed = e ∙ ap obj same;
      location = ap (λ f. is_text (get "location" f)) (sym same) ∙ a;
      revision = ap (λ f. is_text (get "revision" f)) (sym same) ∙ b;
    }
check_source_sound sources name null e h = cc
check_source_sound sources name _ e h = cc

sources_of_sound : (v : Value) {sources : Fields} → sources_of v ≡ ok sources → v ≡ obj sources
sources_of_sound (obj s) h = ap obj (ok_injective h)
sources_of_sound null h = cc
sources_of_sound _ h = cc

-- An accepted provenance has schema version 1 and records for CARLA and the engine, each with a
-- location and a revision; what is returned is those two records and nothing else.
pub read_provenance_sound :
    (data_ kept : Fields)
    → read_provenance (obj data_) ≡ ok kept
    → (is_int 1 (get "schema_version" data_) ≡ true)
      × ((sources : Fields) × (carla : Fields) × (ue : Fields) × (get "sources" data_ ≡ obj sources)
          × IsLocated sources "carla" carla
          × IsLocated sources "ue" ue
          × (kept ≡ field "carla" (obj carla) (field "ue" (obj ue) end)))
unfolding read_provenance
read_provenance_sound data_ kept h =
    let (schema, h1) = (require-then (is_int 1 (get "schema_version" data_)) bad_schema _).0 h in
    let (sources, a, h2) = >>=-eq-ok (sources_of (get "sources" data_)) _ h1 in
    let (carla, b, h3) = >>=-eq-ok (check_source "carla" (get "carla" sources)) _ h2 in
    let (ue, c, h4) = >>=-eq-ok (check_source "ue" (get "ue" sources)) _ h3 in
    (
      schema,
      (
        sources,
        carla,
        ue,
        sources_of_sound (get "sources" data_) a,
        check_source_sound sources "carla" (get "carla" sources) refl b,
        check_source_sound sources "ue" (get "ue" sources) refl c,
        sym (ok_injective h4),
      ),
    )
