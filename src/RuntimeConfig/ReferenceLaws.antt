-- ===== src/RuntimeConfig/ReferenceLaws.antt =====
-- What the replacement leaves, and what its count says.
use my_ad.Prelude.{
  ℕ, String, ◌≡◌, ◌≢◌, ◌↔◌, refl, sym, ap, ◌∙◌, false, some, List, [], ◌∷◌, ok, >>=-eq-ok, str_eq,
  str_eq_iff, str_eq_ne, All, Bool-cases, inl, inr, arith,
}
use my_ad.Json.{
  Value, null, bool, int, float, str, arr, obj, constant, Items, nil, cons, Fields, end, field,
}
use my_ad.StageReport.Host.{Bytes, Entry, absent, unreadable, regular, Files}
use my_ad.Prelude.{require-then, ok_injective}
use my_ad.RuntimeConfig.Reference.{
  old_reference, new_reference, replace_reference, replace_items, replace_fields, missing_asset,
  Stage, config_names, Found, read_config, parsed, with_change, find_changes, write_changes,
  normalize,
}

-- No string value in it, at any depth, is the old reference. The keys of objects are no values: the
-- code looks at none of them, and neither does this.
abbrev mutual
  pub IsClean : Value → Type 0
  IsClean (str s) = s ≢ old_reference
  IsClean (arr items) = AreClean items
  IsClean (obj fields) = HoldClean fields
  IsClean null = Unit
  IsClean (bool _) = Unit
  IsClean (int _) = Unit
  IsClean (float _) = Unit
  IsClean (constant _) = Unit

  pub AreClean : Items → Type 0
  AreClean nil = Unit
  AreClean (cons item items) = IsClean item × AreClean items

  pub HoldClean : Fields → Type 0
  HoldClean end = Unit
  HoldClean (field key value fields) = IsClean value × HoldClean fields

new-ne-old : new_reference ≢ old_reference
new-ne-old e = cc (different, (str_eq_iff new_reference old_reference).1 e)
  where
    different : str_eq new_reference old_reference ≡ false
    different = unfold str_eq in refl

text-IsClean : (s : String) → IsClean (replace_reference (str s)).0
unfolding replace_reference
text-IsClean s = elim (Bool-cases (str_eq s old_reference)) [
  | inl e ↦ rw e new-ne-old
  | inr e ↦ rw e (λ p. cc (e, (str_eq_iff s old_reference).1 p))
]

mutual
  unfolding replace_reference

  replaced-IsClean : (v : Value) → IsClean (replace_reference v).0
  replaced-IsClean (str s) = text-IsClean s
  replaced-IsClean (arr items) = items_clean items
  replaced-IsClean (obj fields) = fields_clean fields
  replaced-IsClean null = tt
  replaced-IsClean (bool b) = tt
  replaced-IsClean (int n) = tt
  replaced-IsClean (float x) = tt
  replaced-IsClean (constant name) = tt

  items_clean : (items : Items) → AreClean (replace_items items).0
  items_clean nil = tt
  items_clean (cons item items) = (replaced-IsClean item, items_clean items)

  fields_clean : (fields : Fields) → HoldClean (replace_fields fields).0
  fields_clean end = tt
  fields_clean (field key value fields) = (replaced-IsClean value, fields_clean fields)

mutual
  unfolding replace_reference

  clean_fixed : (v : Value) → IsClean v → replace_reference v ≡ (v, 0)
  clean_fixed (str s) c = rw (str_eq_ne s old_reference c) refl
  clean_fixed (arr items) c = rw (clean_items items c) refl
  clean_fixed (obj fields) c = rw (clean_fields fields c) refl
  clean_fixed null c = refl
  clean_fixed (bool b) c = refl
  clean_fixed (int n) c = refl
  clean_fixed (float x) c = refl
  clean_fixed (constant name) c = refl

  clean_items : (items : Items) → AreClean items → replace_items items ≡ (items, 0)
  clean_items nil c = refl
  clean_items (cons item items) c = rw (clean_fixed item c.0, clean_items items c.1) refl

  clean_fields : (fields : Fields) → HoldClean fields → replace_fields fields ≡ (fields, 0)
  clean_fields end c = refl
  clean_fields (field key value fields) c = rw (clean_fixed value c.0, clean_fields fields c.1) refl

one_zero : ◌≡◌ {A = ℕ} 1 0 → ⊥
one_zero e = omega arith

mutual
  unfolding replace_reference

  zero-IsClean : (v : Value) → (replace_reference v).1 ≡ 0 → IsClean v
  zero-IsClean (str s) h = elim (Bool-cases (str_eq s old_reference)) [
    | inl e ↦ absurd (one_zero (rw e at h))
    | inr e ↦ λ p. cc (e, (str_eq_iff s old_reference).1 p)
  ]
  zero-IsClean (arr items) h = zero_items items h
  zero-IsClean (obj fields) h = zero_fields fields h
  zero-IsClean null h = tt
  zero-IsClean (bool b) h = tt
  zero-IsClean (int n) h = tt
  zero-IsClean (float x) h = tt
  zero-IsClean (constant name) h = tt

  zero_items : (items : Items) → (replace_items items).1 ≡ 0 → AreClean items
  zero_items nil h = tt
  zero_items (cons item items) h = (zero-IsClean item (omega arith), zero_items items (omega arith))

  zero_fields : (fields : Fields) → (replace_fields fields).1 ≡ 0 → HoldClean fields
  zero_fields end h = tt
  zero_fields (field key value fields) h =
      (zero-IsClean value (omega arith), zero_fields fields (omega arith))

-- The count is 0 exactly when no string value at any depth, keys of objects aside, is the old
-- reference, and then nothing changes; a second replacement counts 0 and changes nothing.
pub replace_reference-IsClean :
    (v : Value)
    → ((replace_reference v).1 ≡ 0 ↔ IsClean v)
      × (IsClean v → replace_reference v ≡ (v, 0))
      × (replace_reference (replace_reference v).0 ≡ ((replace_reference v).0, 0))
replace_reference-IsClean v = (
  (zero-IsClean v, λ c. ap (λ (r : Value × ℕ). r.1) (clean_fixed v c)),
  clean_fixed v,
  clean_fixed (replace_reference v).0 (replaced-IsClean v),
)

module _ (stage : Stage) where
  -- The configuration file holds a value none of whose string values, keys aside, is the old
  -- reference.
  pub record IsNormal (files : Files) (name : String) : Type 0 where
    pub text : Bytes
    pub stored : files (stage.join name) ≡ regular text
    pub value : Value
    pub content : stage.parse text ≡ some value
    pub clean : IsClean value

  read_config_sound :
      (files : Files) (path : String) (entry : Entry) {text : Bytes}
      → files path ≡ entry
      → read_config stage path entry ≡ ok text
      → files path ≡ regular text
  read_config_sound files path absent e h = cc
  read_config_sound files path unreadable e h = cc
  read_config_sound files path (regular content) e h = e ∙ ap regular (ok_injective h)

  parsed_sound :
      (path : String) (text : Bytes) {v : Value}
      → parsed stage path text ≡ ok v
      → stage.parse text ≡ some v
  parsed_sound path text h = ground arith

  with_change_zero :
      (path : String) (updated : Value) (count : ℕ) (found : Found) {result : Found}
      → with_change stage path (updated, count) found ≡ result
      → result.total ≡ 0
      → (count ≡ 0) × (found.total ≡ 0) × (result.changes ≡ found.changes)
  with_change_zero path updated count found e z = ground arith

  find_changes_zero :
      (files : Files) (names : List String) {found : Found}
      → find_changes stage files names ≡ ok found
      → found.total ≡ 0
      → (found.changes ≡ []) × All (IsNormal files) names
  unfolding find_changes
  find_changes_zero files [] h z = (ap (λ (f : Found). f.changes) (sym (ok_injective h)), tt)
  find_changes_zero files (name ∷ names) h z =
      let (text, a, h1) =
        >>=-eq-ok (read_config stage (stage.join name) (files (stage.join name))) _ h in
      let (value, b, h2) = >>=-eq-ok (parsed stage (stage.join name) text) _ h1 in
      let (rest, c, h3) = >>=-eq-ok (find_changes stage files names) _ h2 in
      let (none_here, none_there, same) =
        with_change_zero (stage.join name) (replace_reference value).0 (replace_reference value).1
          rest (ok_injective h3) z in
      let (empty, normal) = find_changes_zero files names c none_there in
      (
        same ∙ empty,
        (
          record {
            text = text;
            stored = read_config_sound files (stage.join name) (files (stage.join name)) refl a;
            value = value;
            content = parsed_sound (stage.join name) text b;
            clean = zero-IsClean value none_here;
          },
          normal,
        ),
      )

  write_nothing :
      (files after : Files) (changes : List (String × Value))
      → changes ≡ []
      → write_changes stage files changes ≡ ok after
      → after ≡ files
  unfolding write_changes
  write_nothing files after [] e h = sym (ok_injective h)
  write_nothing files after (_ ∷ _) e h = cc

  -- A call that reports no replaced reference has changed no file, and both configuration files are
  -- there and hold a value none of whose string values, at any depth and keys of objects aside, is
  -- the old reference.
  pub normalize-zero :
      (files after : Files)
      → normalize stage files ≡ ok (0, after)
      → (after ≡ files) × All (IsNormal files) config_names
  unfolding normalize
  normalize-zero files after h =
      let (_, h1) = (require-then stage.has_asset missing_asset _).0 h in
      let (found, a, h2) = >>=-eq-ok (find_changes stage files config_names) _ h1 in
      let (written, b, h3) = >>=-eq-ok (write_changes stage files found.changes) _ h2 in
      let e = ok_injective h3 in
      let (empty, normal) =
        find_changes_zero files config_names a (ap (λ (r : ℕ × Files). r.0) e) in
      (
        sym (ap (λ (r : ℕ × Files). r.1) e) ∙ write_nothing files written found.changes empty b,
        normal,
      )
