-- ===== src/Json/Unique.antt =====
-- What a strict parse guarantees of the value that it returns.
use my_ad.Prelude.{
  String, ◌≡◌, refl, inl, inr, ◌↔◌, Bool, true, false, List, [], ◌∷◌, ok, ◌>>=◌, contains,
  contains_iff, Among, Bool-cases, >>=-eq-ok, ap, sym, ◌∙◌,
}
use my_ad.Json.{
  Value, null, bool, int, float, str, arr, obj, constant, Items, nil, cons, Fields, end, field,
  keys, unique_object, build, build_items, build_fields,
}

-- No key stands twice.
abbrev pub IsUnique : List String → Type 0
IsUnique [] = Unit
IsUnique (k ∷ ks) = (¬ Among k ks) × IsUnique ks

-- No object of the value repeats a key, at any depth, and no constant stands in it.
abbrev mutual
  pub IsStrict : Value → Type 0
  IsStrict (arr xs) = AreStrict xs
  IsStrict (obj fs) = IsUnique (keys fs) × HoldStrict fs
  IsStrict (constant _) = ⊥
  IsStrict null = Unit
  IsStrict (bool _) = Unit
  IsStrict (int _) = Unit
  IsStrict (float _) = Unit
  IsStrict (str _) = Unit

  pub AreStrict : Items → Type 0
  AreStrict nil = Unit
  AreStrict (cons x xs) = IsStrict x × AreStrict xs

  pub HoldStrict : Fields → Type 0
  HoldStrict end = Unit
  HoldStrict (field k v fs) = IsStrict v × HoldStrict fs

-- The loop of the hook returns its pairs, which repeat no key and none of the keys seen before.
unique_object-eq-ok :
    (seen : List String) (fs : Fields) {gs : Fields}
    → unique_object seen fs ≡ ok gs
    → (gs ≡ fs) × IsUnique (keys fs) × ((k : String) → Among k seen → ¬ Among k (keys fs))
unfolding unique_object
unique_object-eq-ok seen end h = (cc, tt, λ k m n. n)
unique_object-eq-ok seen (field key v fs) {gs} h = elim (Bool-cases (contains key seen)) [
  | inl old ↦ cc (rw old at h)
  | inr new ↦
      let (rest, parsed, made) =
        >>=-eq-ok (unique_object (key ∷ seen) fs) (λ r. ok (field key v r)) (rw new at h) in
      let (same, unique, fresh) = unique_object-eq-ok (key ∷ seen) fs parsed in
      (
        cc,
        (fresh key (inl refl), unique),
        λ k m. elim [
          | inl e ↦ not_both new ((contains_iff key seen).1 (rw e at m))
          | inr n ↦ fresh k (inr m) n
        ],
      )
]
  where
    not_both : {b : Bool} → b ≡ false → b ≡ true → ⊥
    not_both f t = cc

-- Keys that repeat neither each other nor an earlier one pass.
unique_object_ok :
    (seen : List String) (fs : Fields)
    → IsUnique (keys fs)
    → ((k : String) → Among k seen → ¬ Among k (keys fs))
    → unique_object seen fs ≡ ok fs
unfolding unique_object
unique_object_ok seen end u f = refl
unique_object_ok seen (field key v fs) u f = elim (Bool-cases (contains key seen)) [
  | inl old ↦ absurd (f key ((contains_iff key seen).0 old) (inl refl))
  | inr new ↦ rw (new, unique_object_ok (key ∷ seen) fs u.1 later) refl
]
  where
    later : (k : String) → Among k (key ∷ seen) → ¬ Among k (keys fs)
    later k (inl e) = rw e u.0
    later k (inr m) = λ n. f k m (inr n)

mutual
  unfolding build

  build_sound : (v : Value) {w : Value} → build v ≡ ok w → (w ≡ v) × IsStrict v
  build_sound (arr xs) h =
      let (ys, made, e) = >>=-eq-ok (build_items xs) (λ ys. ok (arr ys)) h in
      let (same, strict) = build_items_sound xs made in (cc, strict)
  build_sound (obj fs) h =
      let (gs, made, more) =
        >>=-eq-ok (build_fields fs) (λ gs. unique_object [] gs >>= λ hs. ok (obj hs)) h in
      let (hs, checked, e) = >>=-eq-ok (unique_object [] gs) (λ hs. ok (obj hs)) more in
      let (same, strict) = build_fields_sound fs made in
      let (kept, unique, _) = unique_object-eq-ok [] gs checked in (cc, (rw same at unique, strict))
  build_sound (constant name) h = cc
  build_sound null h = (cc, tt)
  build_sound (bool b) h = (cc, tt)
  build_sound (int n) h = (cc, tt)
  build_sound (float x) h = (cc, tt)
  build_sound (str s) h = (cc, tt)

  build_items_sound : (xs : Items) {ys : Items} → build_items xs ≡ ok ys → (ys ≡ xs) × AreStrict xs
  build_items_sound nil h = (cc, tt)
  build_items_sound (cons x xs) h =
      let (y, made, more) = >>=-eq-ok (build x) (λ y. build_items xs >>= λ ys. ok (cons y ys)) h in
      let (ys, rest, e) = >>=-eq-ok (build_items xs) (λ ys. ok (cons y ys)) more in
      let (same, strict) = build_sound x made in
      let (sames, stricts) = build_items_sound xs rest in (cc, (strict, stricts))

  build_fields_sound :
      (fs : Fields) {gs : Fields} → build_fields fs ≡ ok gs → (gs ≡ fs) × HoldStrict fs
  build_fields_sound end h = (cc, tt)
  build_fields_sound (field k v fs) h =
      let (w, made, more) =
        >>=-eq-ok (build v) (λ w. build_fields fs >>= λ gs. ok (field k w gs)) h in
      let (gs, rest, e) = >>=-eq-ok (build_fields fs) (λ gs. ok (field k w gs)) more in
      let (same, strict) = build_sound v made in
      let (sames, stricts) = build_fields_sound fs rest in (cc, (strict, stricts))

mutual
  unfolding build

  build_complete : (v : Value) → IsStrict v → build v ≡ ok v
  build_complete (arr xs) s = rw (build_items_complete xs s)
  build_complete (obj fs) s =
      rw (build_fields_complete fs s.1, unique_object_ok [] fs s.0 (λ k m. elim m [ ]))
  build_complete (constant name) s = elim s [ ]
  build_complete null s = refl
  build_complete (bool b) s = refl
  build_complete (int n) s = refl
  build_complete (float x) s = refl
  build_complete (str t) s = refl

  build_items_complete : (xs : Items) → AreStrict xs → build_items xs ≡ ok xs
  build_items_complete nil s = refl
  build_items_complete (cons x xs) s = rw (build_complete x s.0, build_items_complete xs s.1)

  build_fields_complete : (fs : Fields) → HoldStrict fs → build_fields fs ≡ ok fs
  build_fields_complete end s = refl
  build_fields_complete (field k v fs) s = rw (build_complete v s.0, build_fields_complete fs s.1)

-- A strict parse succeeds exactly on the trees in which no object repeats a key, at any depth, and
-- which hold no NaN or Infinity; it then returns the tree itself.
pub build_iff : (v w : Value) → (build v ≡ ok w) ↔ ((w ≡ v) × IsStrict v)
build_iff v w =
    (λ h. build_sound v h, λ s. build_complete v s.1 ∙ ap (λ (x : Value). ok x) (sym s.0))
