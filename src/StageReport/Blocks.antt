-- ===== src/StageReport/Blocks.antt =====
-- Each block of `_content_errors` collects nothing exactly when its part of the specification
-- holds.
use my_ad.Prelude.{
  ℕ, String, ◌≡◌, refl, sym, ap, ◌∙◌, ◌↔◌, Bool, true, false, not, List, [], ◌∷◌, ◌++◌, arith,
  str_eq_iff, &&-eq-true,
}
use my_ad.Prelude.Int.{pos, negsuc}
use my_ad.Json.{
  Value, null, int, str, arr, obj, Items, nil, cons, Fields, end, field, get, is_text, is_int,
  is_str, is_string,
}
use my_ad.StageReport.Fault.{Fault}
use my_ad.StageReport.Host.{Host}
use my_ad.StageReport.Content.{
  demand, matches, has_timezone, header_errors, all_strings, is_argv, command_errors, is_source,
  each_source, source_errors_of, source_errors,
}
use my_ad.StageReport.Verified.{
  strings, IsText, IsTextValue, AreSameText, IsTimestamp, HasHeader, HasCommand, IsSource,
  AreSources, HasSources,
}

pub demand_iff : (b : Bool) (e : Fault) → (demand b e ≡ []) ↔ (b ≡ true)
demand_iff true e = (λ h. refl, λ h. refl)
demand_iff false e = (λ h. cc, λ h. cc)

pub demand-append :
    (b : Bool) (e : Fault) (rest : List Fault)
    → (demand b e ++ rest ≡ []) ↔ ((b ≡ true) × (rest ≡ []))
demand-append true e rest = (λ h. (refl, h), λ h. h.1)
demand-append false e rest = (λ h. cc, λ h. cc (h.0))

pub is_int_iff : (n : ℕ) (v : Value) → (is_int n v ≡ true) ↔ (v ≡ int (pos n))
unfolding is_int
is_int_iff n (int (pos m)) = ground arith
is_int_iff n (int (negsuc m)) = ground arith
is_int_iff n _ = ground arith

pub is_str_iff : (s : String) (v : Value) → (is_str s v ≡ true) ↔ (v ≡ str s)
unfolding is_str
is_str_iff s (str t) = ground (arith, str_eq_iff s t)
is_str_iff s _ = ground arith

pub is_text_iff : (v : Value) → (is_text v ≡ true) ↔ IsTextValue v
unfolding is_text
is_text_iff (str s) = (
  λ h. record { text = s; is_str = refl; visible = ground arith },
  λ t. ground (arith, t.is_str, t.visible),
)
is_text_iff _ = (λ h. cc, λ t. cc (t.is_str))

pub str_injective : {s t : String} → str s ≡ str t → s ≡ t
str_injective e = cc

pub obj_injective : {s t : Fields} → obj s ≡ obj t → s ≡ t
obj_injective e = cc

pub not-false : {b : Bool} → b ≡ false → not b ≡ true
not-false h = ground arith

matches_iff : (a b : Value) → (matches a b ≡ true) ↔ AreSameText a b
matches_iff (str s) b = (
  λ h. record {
    text = s;
    wanted = refl;
    visible = ground arith;
    found = (is_str_iff s b).0 (ground arith);
  },
  λ t. (&&-eq-true _ _).1 (
    not-false (rw (str_injective t.wanted) t.visible),
    (is_str_iff s b).1 (t.found ∙ sym t.wanted),
  ),
)
matches_iff _ b = (λ h. cc, λ t. cc (t.wanted))

has_timezone_iff : (host : Host) (v : Value) → (has_timezone host v ≡ true) ↔ IsTimestamp host v
has_timezone_iff host (str s) = (
  λ h. record { text = s; is_str = refl; aware = ground arith },
  λ t. rw (ap host.utcoffset (str_injective t.is_str) ∙ t.aware, has_timezone) refl,
)
has_timezone_iff host _ = (λ h. cc, λ t. cc (t.is_str))

pub header_iff :
    (host : Host) (report : Fields) (stage_id scope : Value)
    → (header_errors host report stage_id scope ≡ []) ↔ HasHeader host report stage_id scope
unfolding header_errors
header_iff host report stage_id scope = (
  λ h.
      let (a, h1) = (demand-append _ _ _).0 h in
      let (b, h2) = (demand-append _ _ _).0 h1 in
      let (c, h3) = (demand-append _ _ _).0 h2 in
      let (d, e) = (demand-append _ _ _).0 h3 in
      record {
        schema = (is_int_iff 1 _).0 a;
        stage = (matches_iff stage_id _).0 b;
        scope_ = (matches_iff scope _).0 c;
        created = (has_timezone_iff host _).0 d;
        exit_code = (is_int_iff 0 _).0 ((demand_iff _ _).0 e);
      },
  λ s. (demand-append _ _ _).1 (
    (is_int_iff 1 _).1 s.schema,
    (demand-append _ _ _).1 (
      (matches_iff stage_id _).1 s.stage,
      (demand-append _ _ _).1 (
        (matches_iff scope _).1 s.scope_,
        (demand-append _ _ _).1 (
          (has_timezone_iff host _).1 s.created,
          (demand_iff _ _).1 ((is_int_iff 0 _).1 s.exit_code),
        ),
      ),
    ),
  ),
)

all_strings-strings : (names : List String) → all_strings (strings names) ≡ true
unfolding is_string
all_strings-strings [] = refl
all_strings-strings (s ∷ ss) = all_strings-strings ss

strings_of : (xs : Items) → all_strings xs ≡ true → (names : List String) × (xs ≡ strings names)
unfolding is_string
strings_of nil h = ([], refl)
strings_of (cons (str s) xs) h = let (names, e) = strings_of xs h in (s ∷ names, rw e refl)
strings_of (cons null xs) h = cc
strings_of (cons _ xs) h = cc

ap_cons : {x y : Value} {xs ys : Items} → x ≡ y → xs ≡ ys → cons x xs ≡ cons y ys
ap_cons p q = cc

pub command_iff : (report : Fields) → (command_errors report ≡ []) ↔ HasCommand report
unfolding command_errors
command_iff report = (
  λ h. to (get "command" report) refl ((demand_iff _ _).0 h),
  λ c. (demand_iff _ _).1 (rw c.argv (back c.program c.arguments c.visible)),
)
  where
    back :
        (program : String) (arguments : List String)
        → IsText program
        → is_argv (arr (strings (program ∷ arguments))) ≡ true
    back program arguments v = (&&-eq-true _ _).1 (
      (is_text_iff (str program)).1 (record { text = program; is_str = refl; visible = v }),
      all_strings-strings (program ∷ arguments),
    )

    to : (v : Value) → get "command" report ≡ v → is_argv v ≡ true → HasCommand report
    to (arr (cons program arguments)) e h =
        let (named, rest) =
          (&&-eq-true (is_text program) (all_strings (cons program arguments))).0 h in
        let t = (is_text_iff program).0 named in
        let (args, same) = strings_of arguments ((&&-eq-true _ _).0 rest).1 in
        record {
          program = t.text;
          arguments = args;
          argv = e ∙ ap arr (ap_cons t.is_str same);
          visible = t.visible;
        }
    to (arr nil) e h = cc
    to null e h = cc
    to _ e h = cc

is_source_iff : (name : String) (v : Value) → (is_source name v ≡ true) ↔ IsSource name v
is_source_iff name (obj source) = (
  λ h. record {
    source = source;
    is_obj = refl;
    visible = ground arith;
    location = (is_text_iff (get "location" source)).0 (ground arith);
    revision = (is_text_iff (get "revision" source)).0 (ground arith);
  },
  λ s.
      let same : source ≡ s.source = obj_injective s.is_obj in
      ground (
        arith,
        s.visible,
        (is_text_iff (get "location" source)).1 (rw same s.location),
        (is_text_iff (get "revision" source)).1 (rw same s.revision),
      ),
)
is_source_iff name _ = (λ h. cc, λ s. cc (s.is_obj))

each_source_iff : (fs : Fields) → (each_source fs ≡ []) ↔ AreSources fs
unfolding each_source
each_source_iff end = (λ h. tt, λ s. refl)
each_source_iff (field name v fs) = (
  λ h.
      let (a, b) = (demand-append _ _ _).0 h in
      ((is_source_iff name v).0 a, (each_source_iff fs).0 b),
  λ s. (demand-append _ _ _).1 ((is_source_iff name v).1 s.0, (each_source_iff fs).1 s.1),
)

pub source_iff : (report : Fields) → (source_errors report ≡ []) ↔ HasSources report
unfolding source_errors
source_iff report = (
  λ h. to (get "sources" report) refl h,
  λ s. rw s.listed ((each_source_iff (field s.name s.first s.rest)).1 s.each),
)
  where
    to : (v : Value) → get "sources" report ≡ v → source_errors_of v ≡ [] → HasSources report
    to (obj (field name first rest)) e h = record {
      name = name;
      first = first;
      rest = rest;
      listed = e;
      each = (each_source_iff (field name first rest)).0 h;
    }
    to (obj end) e h = cc
    to _ e h = cc
