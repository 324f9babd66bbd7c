-- ===== src/StageReport/CheckBlocks.antt =====
-- The blocks of `_content_errors` on required and reported checks, against the specification.
use my_ad.Prelude.{
  String, ◌≡◌, ◌≢◌, refl, ap, ◌∙◌, ◌↔◌, inl, inr, Bool, true, false, not, some, List, [], ◌∷◌, ◌++◌,
  arith, is_blank, contains, contains_iff, Among, All, All-at, Bool-cases, Option-cases,
  append-eq-nil, subst, &&-eq-true,
}
use my_ad.Json.{Value, null, str, arr, obj, Items, nil, cons, Fields, end, field, get, keys}
use my_ad.Json.Unique.{IsUnique}
use my_ad.StageReport.Fault.{Fault, no_checks, missing_check}
use my_ad.StageReport.Content.{
  texts, names_of, has_duplicate, required_names, required_errors, dict_of, is_end, missing,
  each_check, check_errors,
}
use my_ad.StageReport.Verified.{strings, IsText, HasRequired, EachPasses, HasChecks}
use my_ad.StageReport.Blocks.{demand_iff, demand-append, is_str_iff, not-false}

texts-strings : (names : List String) → All IsText names → texts (strings names) ≡ some names
texts-strings [] h = refl
texts-strings (name ∷ names) h = rw (h.0, texts-strings names h.1) refl

some_injective : {A : Type 0} {x y : A} → some x ≡ some y → x ≡ y
some_injective e = cc

texts-eq-some :
    (xs : Items) {names : List String}
    → texts xs ≡ some names
    → (xs ≡ strings names) × All IsText names
texts-eq-some nil h = subst (λ l. (nil ≡ strings l) × All IsText l) (some_injective h) (refl, tt)
texts-eq-some (cons (str s) xs) h = elim (Bool-cases (is_blank s)) [
  | inl e ↦ cc (rw e at h)
  | inr e ↦ elim (Option-cases (texts xs)) [
    | inl n ↦ cc (rw (e, n) at h)
    | inr (rest, m) ↦
        let (same, visible) = texts-eq-some xs m in
        subst (λ l. (cons (str s) xs ≡ strings l) × All IsText l) (some_injective (rw (e, m) at h))
          (ap (cons (str s)) same, (e, visible))
  ]
]
texts-eq-some (cons null xs) h = cc
texts-eq-some (cons _ xs) h = cc

has_duplicate_iff : (names : List String) → (has_duplicate names ≡ false) ↔ IsUnique names
has_duplicate_iff [] = (λ h. tt, λ u. refl)
has_duplicate_iff (name ∷ names) = (
  λ h. (
    λ m. clash (ground arith) ((contains_iff name names).1 m),
    (has_duplicate_iff names).0 (ground arith),
  ),
  λ u. elim (Bool-cases (contains name names)) [
    | inl e ↦ absurd (u.0 ((contains_iff name names).0 e))
    | inr e ↦ rw (e, (has_duplicate_iff names).1 u.1) refl
  ],
)
  where
    clash : {b : Bool} → b ≡ false → b ≡ true → ⊥
    clash f t = cc

names_of-eq-some :
    (v : Value) {names : List String}
    → names_of v ≡ some names
    → (names ≢ []) × (v ≡ arr (strings names)) × All IsText names
names_of-eq-some (arr (cons x xs)) h =
    let (same, visible) = texts-eq-some (cons x xs) h in
    (λ e. nonempty (same ∙ ap strings e), ap arr same, visible)
  where
    nonempty : cons x xs ≡ nil → ⊥
    nonempty e = cc
names_of-eq-some (arr nil) h = cc
names_of-eq-some null h = cc
names_of-eq-some _ h = cc

names_of-strings :
    (names : List String)
    → names ≢ []
    → All IsText names
    → names_of (arr (strings names)) ≡ some names
names_of-strings [] e v = absurd (e refl)
names_of-strings (name ∷ names) e v = texts-strings (name ∷ names) v

pub missing_iff :
    (fault : String → Fault) (present : Fields) (names : List String)
    → (missing fault present names ≡ []) ↔ All (λ name. Among name (keys present)) names
unfolding missing
missing_iff fault present [] = (λ h. tt, λ a. refl)
missing_iff fault present (name ∷ names) = (
  λ h.
      let (a, b) = (demand-append _ _ _).0 h in
      ((contains_iff name (keys present)).0 a, (missing_iff fault present names).0 b),
  λ a.
      (demand-append _ _ _).1
        ((contains_iff name (keys present)).1 a.0, (missing_iff fault present names).1 a.1),
)

each_check_iff :
    (names : List String) (fs : Fields)
    → All IsText names
    → (each_check names fs ≡ []) ↔ EachPasses names fs
unfolding each_check
each_check_iff names end v = (λ h. tt, λ p. refl)
each_check_iff names (field name status fs) v = (
  λ h.
      let (a, rest) = (demand-append _ _ _).0 h in
      let (b, c) = (demand-append _ _ _).0 rest in
      (
        (contains_iff name names).0 ((&&-eq-true _ _).0 a).1,
        (is_str_iff "PASS" status).0 b,
        (each_check_iff names fs v).0 c,
      ),
  λ p. (demand-append _ _ _).1 (
    (&&-eq-true _ _).1 (not-false (All-at IsText names v p.0), (contains_iff name names).1 p.0),
    (demand-append _ _ _).1 ((is_str_iff "PASS" status).1 p.1, (each_check_iff names fs v).1 p.2),
  ),
)

module _ {report : Fields} {names : List String} (r : HasRequired report names) where
  names_of-required : names_of (get "required_checks" report) ≡ some names
  names_of-required = ap names_of r.listed ∙ names_of-strings names r.some_name r.visible

  pub required_names-of : required_names report ≡ names
  unfolding required_names
  required_names-of = rw (names_of-required, required_names) refl

  pub required_complete : required_errors report ≡ []
  unfolding required_errors
  required_complete =
      rw (names_of-required, required_errors, (has_duplicate_iff names).1 r.unique) refl

pub required_sound :
    (report : Fields)
    → required_errors report ≡ []
    → (names : List String) × HasRequired report names
unfolding required_errors
required_sound report h = elim (Option-cases (names_of (get "required_checks" report))) [
  | inl e ↦ cc (rw (e, required_errors) at h)
  | inr (names, e) ↦
      let (some_name, listed, visible) = names_of-eq-some (get "required_checks" report) e in
      (
        names,
        record {
          some_name = some_name;
          listed = listed;
          visible = visible;
          unique =
              (has_duplicate_iff names).0
                (not-true ((demand_iff _ _).0 (rw (e, required_errors) at h)));
        },
      )
]
  where
    not-true : {b : Bool} → not b ≡ true → b ≡ false
    not-true n = ground arith

-- the fields of an object that some name stands in
obj_of_name : (v : Value) (name : String) → Among name (keys (dict_of v)) → v ≡ obj (dict_of v)
obj_of_name (obj fs) name m = refl
obj_of_name null name m = elim m [ ]
obj_of_name _ name m = elim m [ ]

not-is_end : (name : String) (fs : Fields) → Among name (keys fs) → not (is_end fs) ≡ true
not-is_end name end m = elim m [ ]
not-is_end name (field k v fs) m = refl

-- A nonempty list of names, all in the object, shows that the value is one and is not empty.
pub obj_of_names :
    (v : Value) (names : List String)
    → names ≢ []
    → All (λ name. Among name (keys (dict_of v))) names
    → (v ≡ obj (dict_of v)) × (not (is_end (dict_of v)) ≡ true)
obj_of_names v [] e a = absurd (e refl)
obj_of_names v (name ∷ names) e a = (obj_of_name v name a.0, not-is_end name (dict_of v) a.0)

pub check_iff :
    (report : Fields) (names : List String)
    → HasRequired report names
    → (check_errors report ≡ []) ↔ HasChecks report names
unfolding check_errors
check_iff report names r = (
  λ h.
      let checks = dict_of (get "checks" report) in
      let required = required_names report in
      let (_, rest) =
        (demand-append (not (is_end checks)) no_checks
            (missing missing_check checks required ++ each_check required checks)).0
          h in
      let (a, b) =
        (append-eq-nil (missing missing_check checks required) (each_check required checks)).0
          rest in
      let complete = (missing_iff missing_check checks names).0 (rw (required_names-of r) at a) in
      let passed = (each_check_iff names checks r.visible).0 (rw (required_names-of r) at b) in
      record {
        checks = checks;
        is_obj = (obj_of_names _ names r.some_name complete).0;
        complete = complete;
        passed = passed;
      },
  λ c.
      rw (required_names-of r, c.is_obj)
        ((demand-append _ _ _).1 (
          (obj_of_names (obj c.checks) names r.some_name c.complete).1,
          (append-eq-nil _ _).1 (
            (missing_iff _ c.checks names).1 c.complete,
            (each_check_iff names c.checks r.visible).1 c.passed,
          ),
        )),
)
