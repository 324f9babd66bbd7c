-- ===== src/BuildManifest/LedgerLaws.antt =====
-- capture_build_manifest.py: which change ledgers are accepted.
use my_ad.Prelude.{
  String, ◌≡◌, ◌≢◌, refl, subst, Bool, true, false, not, ◌&&◌, List, [], ◌∷◌, ok, >>=-eq-ok,
  require-then, require-eq-ok, ok_injective, &&-eq-true, contains, contains_iff, Among, str_eq,
  str_eq_iff, all, All,
}
use my_ad.Json.{Value, str, arr, obj, Items, nil, cons, Fields, get, is_text, is_int}
use my_ad.BuildManifest.Fault.{
  bad_ledger, bad_identifier, missing_text, bad_paths, missing_path, bad_validation,
}
use my_ad.BuildManifest.Paths.{is_absolute}
use my_ad.BuildManifest.Ledger.{
  text_fields, is_filled, check_path, check_paths, check_all_paths, check_content, identifier,
  check_entries, check_list, validate_change_ledger,
}

module _ (exists_ : String → Bool) where
  -- A path that is relative and leads to something.
  abbrev pub IsLedgerPath : Value → Type 0
  IsLedgerPath value =
      (path : String) × (value ≡ str path)
      × (path ≢ "")
      × (is_absolute path ≡ false)
      × (exists_ path ≡ true)

  abbrev pub AreLedgerPaths : Items → Type 0
  AreLedgerPaths nil = Unit
  AreLedgerPaths (cons path paths) = IsLedgerPath path × AreLedgerPaths paths

  -- The texts, the paths and the validation of an entry.
  pub record IsComplete (entry : Fields) : Type 0 where
    pub texts : All (λ (name : String). is_text (get name entry) ≡ true) text_fields
    pub first : Value
    pub others : Items
    pub listed : get "paths" entry ≡ arr (cons first others)
    pub led : AreLedgerPaths (cons first others)
    pub validated : is_filled (get "validation" entry) ≡ true

  -- Entries with their own identifiers, none of which was seen before.
  pub data AreEntries : List String → Items → Type 0 where
    no_entries : {ids : List String} → AreEntries ids nil
    entry :
        {ids : List String} {rest : Items} (name : String) (fields : Fields)
        → get "id" fields ≡ str name
        → name ≢ ""
        → ¬ Among name ids
        → IsComplete fields
        → AreEntries (name ∷ ids) rest
        → AreEntries ids (cons (obj fields) rest)

  -- A ledger of version 1 with at least one entry.
  pub record IsLedger (ledger : Fields) : Type 0 where
    pub version : is_int 1 (get "schema_version" ledger) ≡ true
    pub first : Value
    pub others : Items
    pub listed : get "entries" ledger ≡ arr (cons first others)
    pub entries : AreEntries [] (cons first others)

  negated_true : (b : Bool) → not b ≡ true → b ≡ false
  negated_true true h = cc
  negated_true false h = refl

  differs : (s t : String) → not (str_eq s t) ≡ true → s ≢ t
  differs s t h e = cc (negated_true (str_eq s t) h, (str_eq_iff s t).1 e)

  -- A condition of two negated tests.
  neither : (a b : Bool) → (not a && not b) ≡ true → (not a ≡ true) × (b ≡ false)
  neither a b h = let (x, y) = (&&-eq-true (not a) (not b)).0 h in (x, negated_true b y)

  check_path-IsLedgerPath : (value : Value) → check_path exists_ value ≡ ok tt → IsLedgerPath value
  check_path-IsLedgerPath (str path) h =
      let (a, b) =
        (require-then (not (str_eq path "") && not (is_absolute path)) bad_paths _).0 h in
      let (filled, relative) = neither (str_eq path "") (is_absolute path) a in
      (path, refl, differs path "" filled, relative, require-eq-ok (exists_ path) missing_path b)
  check_path-IsLedgerPath _ h = cc

  check_paths-AreLedgerPaths :
      (paths : Items) → check_paths exists_ paths ≡ ok tt → AreLedgerPaths paths
  unfolding check_paths
  check_paths-AreLedgerPaths nil h = tt
  check_paths-AreLedgerPaths (cons path paths) h =
      let (u, a, b) = >>=-eq-ok (check_path exists_ path) _ h in
      (check_path-IsLedgerPath path a, check_paths-AreLedgerPaths paths b)

  -- What `check_all_paths` accepts.
  record AreListed (value : Value) : Type 0 where
    first : Value
    others : Items
    listed : value ≡ arr (cons first others)
    led : AreLedgerPaths (cons first others)

  check_all_paths-AreListed :
      (value : Value) → check_all_paths exists_ value ≡ ok tt → AreListed value
  unfolding check_all_paths
  check_all_paths-AreListed (arr (cons first others)) h = record {
    first = first;
    others = others;
    listed = refl;
    led = check_paths-AreLedgerPaths (cons first others) h;
  }
  check_all_paths-AreListed _ h = cc

  all-All :
      (p : String → Bool) (names : List String)
      → all p names ≡ true
      → All (λ (name : String). p name ≡ true) names
  all-All p [] h = tt
  all-All p (name ∷ names) h =
      let (a, b) = (&&-eq-true (p name) (all p names)).0 h in (a, all-All p names b)

  check_content-IsComplete :
      (fields : Fields) → check_content exists_ fields ≡ ok tt → IsComplete fields
  unfolding check_content
  check_content-IsComplete fields h =
      let (texts, h1) =
        (require-then (all (λ name. is_text (get name fields)) text_fields) missing_text _).0 h in
      let (u, a, b) = >>=-eq-ok (check_all_paths exists_ (get "paths" fields)) _ h1 in
      let paths = check_all_paths-AreListed (get "paths" fields) a in
      record {
        texts = all-All (λ name. is_text (get name fields)) text_fields texts;
        first = paths.first;
        others = paths.others;
        listed = paths.listed;
        led = paths.led;
        validated = require-eq-ok (is_filled (get "validation" fields)) bad_validation b;
      }

  identifier_sound :
      (ids : List String) (value : Value) (name : String)
      → identifier exists_ ids value ≡ ok name
      → (value ≡ str name) × (name ≢ "") × (¬ Among name ids)
  identifier_sound ids (str s) name h =
      let (a, b) =
        (require-then (not (str_eq s "") && not (contains s ids)) bad_identifier _).0 h in
      let (filled, fresh) = neither (str_eq s "") (contains s ids) a in
      subst (λ (n : String). (str s ≡ str n) × (n ≢ "") × (¬ Among n ids)) (ok_injective b)
        (refl, differs s "" filled, λ m. cc (fresh, (contains_iff s ids).1 m))
  identifier_sound ids _ name h = cc

  check_entries-AreEntries :
      (ids : List String) (entries : Items)
      → check_entries exists_ ids entries ≡ ok tt
      → AreEntries ids entries
  unfolding check_entries
  check_entries-AreEntries ids nil h = no_entries
  check_entries-AreEntries ids (cons (obj fields) entries) h =
      let (name, a, h1) = >>=-eq-ok (identifier exists_ ids (get "id" fields)) _ h in
      let (u, b, h2) = >>=-eq-ok (check_content exists_ fields) _ h1 in
      let (named, filled, fresh) = identifier_sound ids (get "id" fields) name a in
      entry name fields named filled fresh (check_content-IsComplete fields b)
        (check_entries-AreEntries (name ∷ ids) entries h2)
  check_entries-AreEntries ids (cons _ entries) h = cc

  by_list :
      (ledger : Fields) (value : Value)
      → get "entries" ledger ≡ value
      → is_int 1 (get "schema_version" ledger) ≡ true
      → check_list exists_ value ≡ ok tt
      → IsLedger ledger
  by_list ledger (arr (cons first others)) e version h = record {
    version = version;
    first = first;
    others = others;
    listed = e;
    entries = check_entries-AreEntries [] (cons first others) h;
  }
  by_list ledger _ e version h = cc

  -- A change ledger that is accepted has the integer version 1 and at least one entry; every entry has
  -- a nonempty identifier of its own, four texts that are not blank, at least one path, all relative
  -- and leading to something that exists, and a nonempty list of validations.
  pub validate_change_ledger-IsLedger :
      (ledger : Fields) → validate_change_ledger exists_ ledger ≡ ok tt → IsLedger ledger
  unfolding validate_change_ledger
  validate_change_ledger-IsLedger ledger h =
      let (version, h1) =
        (require-then (is_int 1 (get "schema_version" ledger)) bad_ledger _).0 h in
      by_list ledger (get "entries" ledger) refl version h1
