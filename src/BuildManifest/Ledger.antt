-- ===== src/BuildManifest/Ledger.antt =====
-- capture_build_manifest.py: `_validate_change_ledger`, from the parsed value on.
use my_ad.Prelude.{
  String, Bool, true, false, not, ◌&&◌, List, [], ◌∷◌, Result, ok, err, ◌>>=◌, ◌>>◌, require,
  contains, str_eq, all,
}
use my_ad.Json.{Value, str, arr, obj, Items, nil, cons, Fields, get, is_text, is_int}
use my_ad.BuildManifest.Fault.{
  ManifestFault, bad_ledger, bad_entries, bad_entry, bad_identifier, missing_text, bad_paths,
  missing_path, bad_validation,
}
use my_ad.BuildManifest.Paths.{is_absolute}

abbrev pub text_fields : List String
text_fields = "category" ∷ "change" ∷ "reason" ∷ "boundary" ∷ []

-- `isinstance(value, list) and value`
abbrev pub is_filled : Value → Bool
is_filled (arr (cons x xs)) = true
is_filled _ = false

module _ (exists_ : String → Bool) where
  -- the test and the check of one path
  abbrev pub check_path : Value → Result ManifestFault (Unit {0})
  check_path (str path) = do
    require (not (str_eq path "") && not (is_absolute path)) bad_paths
    require (exists_ path) missing_path
  check_path _ = err bad_paths

  unfoldable pub check_paths : Items → Result ManifestFault (Unit {0})
  unfolding is_absolute
  check_paths nil = ok tt
  check_paths (cons path paths) = check_path path >> check_paths paths

  -- `isinstance(paths, list) and paths`, and the loop
  unfoldable pub check_all_paths : Value → Result ManifestFault (Unit {0})
  unfolding check_paths
  check_all_paths (arr (cons path paths)) = check_paths (cons path paths)
  check_all_paths _ = err bad_paths

  -- the checks of an entry behind its identifier
  unfoldable pub check_content : Fields → Result ManifestFault (Unit {0})
  unfolding check_all_paths
  check_content entry = do
    require (all (λ name. is_text (get name entry)) text_fields) missing_text
    check_all_paths (get "paths" entry)
    require (is_filled (get "validation" entry)) bad_validation

  -- an identifier that is a text, not empty and not among those seen
  abbrev pub identifier : List String → Value → Result ManifestFault String
  identifier ids (str name) =
      require (not (str_eq name "") && not (contains name ids)) bad_identifier >> ok name
  identifier ids _ = err bad_identifier

  -- the loop over the entries, with the identifiers that it has seen
  unfoldable pub check_entries : List String → Items → Result ManifestFault (Unit {0})
  unfolding check_content
  check_entries ids nil = ok tt
  check_entries ids (cons (obj entry) entries) = identifier ids (get "id" entry) >>= λ name.
      check_content entry >> check_entries (name ∷ ids) entries
  check_entries ids (cons _ entries) = err bad_entry

  abbrev pub check_list : Value → Result ManifestFault (Unit {0})
  check_list (arr (cons entry entries)) = check_entries [] (cons entry entries)
  check_list _ = err bad_entries

  -- `_validate_change_ledger` of a ledger that is there and parses to an object
  unfoldable pub validate_change_ledger : Fields → Result ManifestFault (Unit {0})
  unfolding check_entries
  validate_change_ledger ledger =
      require (is_int 1 (get "schema_version" ledger)) bad_ledger
      >> check_list (get "entries" ledger)
