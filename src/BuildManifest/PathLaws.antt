-- ===== src/BuildManifest/PathLaws.antt =====
-- capture_build_manifest.py: a safe name does not leave the directory that it is joined to.
use my_ad.Prelude.{
  String, ◌≡◌, ◌≢◌, refl, sym, ap, ◌∙◌, Bool, true, false, not, ◌&&◌, ◌||◌, [], ◌∷◌, ok,
  require-then, ok_injective, &&-eq-true, Bool-cases, inl, inr, str_eq, str_eq_iff, str_eq_refl,
  contains, is_empty, any, codes, ◌==◌, if◌then◌else◌,
}
use my_ad.Json.{Value, str}
use my_ad.BuildManifest.Fault.{not_relative, escapes_root, contains_nul}
use my_ad.BuildManifest.Paths.{
  FilePath, split_on, kept, parts, is_absolute, are_plain, safe_relative_name, same_path,
}

-- One level up, and the path that leads there; the innermost part stands first.
abbrev up : FilePath → FilePath
up [] = []
up (_ ∷ outer) = outer

-- The directory that a path leads to from `here`, without symbolic links: "." stays, ".." goes up
-- and any other part goes down.
unfoldable pub walk : FilePath → FilePath → FilePath
walk here [] = here
walk here (part ∷ path) =
    let stay = walk here path in
    let above = walk (up here) path in
    let down = walk (part ∷ here) path in
    if str_eq part "" || str_eq part "." then stay else (if str_eq part ".." then above else down)

-- All parts of the path, below `here`.
abbrev pub below : FilePath → FilePath → FilePath
below here [] = here
below here (part ∷ path) = below (part ∷ here) path

walk-plain : (here path : FilePath) → are_plain path ≡ true → walk here path ≡ below here path
unfolding walk are_plain contains
walk-plain here [] h = refl
walk-plain here (part ∷ path) h = elim (Bool-cases (str_eq part "")) [
  | inl a ↦ cc (rw a at h)
  | inr a ↦ elim (Bool-cases (str_eq part ".")) [
    | inl b ↦ cc (rw (a, b) at h)
    | inr b ↦ elim (Bool-cases (str_eq part "..")) [
      | inl c ↦ cc (rw (a, b, c) at h)
      | inr c ↦ rw (a, b, c) (walk-plain (part ∷ here) path (rw (a, b, c) at h))
    ]
  ]
]

pub same_path_eq : (p q : FilePath) → same_path p q ≡ true → p ≡ q
unfolding same_path
same_path_eq [] [] h = refl
same_path_eq [] (b ∷ q) h = cc
same_path_eq (a ∷ p) [] h = cc
same_path_eq (a ∷ p) (b ∷ q) h =
    let (x, y) = (&&-eq-true (str_eq a b) (same_path p q)).0 h in
    let e = (str_eq_iff a b).0 x in let f = same_path_eq p q y in cc (e, f)

pub same_path_refl : (p : FilePath) → same_path p p ≡ true
unfolding same_path
same_path_refl [] = refl
same_path_refl (a ∷ p) =
    (&&-eq-true (str_eq a a) (same_path p p)).1 (str_eq_refl a, same_path_refl p)

-- The pieces that `Path` drops stay where they are.
walk_step :
    (here : FilePath) (piece : String) (path : FilePath)
    → walk here (piece ∷ path) ≡ (
        if str_eq piece "" || str_eq piece "."
        then walk here path
        else (if str_eq piece ".." then walk (up here) path else walk (piece ∷ here) path))
unfolding walk
walk_step here piece path = refl

walk-kept : (here pieces : FilePath) → walk here (kept pieces) ≡ walk here pieces
unfolding kept
walk-kept here [] = refl
walk-kept here (piece ∷ pieces) = elim (Bool-cases (str_eq piece "" || str_eq piece ".")) [
  | inl d ↦ rw (kept, walk_step here piece pieces, d) (walk-kept here pieces)
  | inr d ↦
      ap (λ (b : Bool). walk here (if b then kept pieces else piece ∷ kept pieces)) d
      ∙ walk_step here piece (kept pieces)
      ∙ (ap
          (λ (r : FilePath × FilePath × FilePath).
            if str_eq piece "" || str_eq piece "."
            then r.0
            else (if str_eq piece ".." then r.1 else r.2))
          (triple (walk-kept here pieces) (walk-kept (up here) pieces)
            (walk-kept (piece ∷ here) pieces)))
      ∙ sym (walk_step here piece pieces)
]
  where
    triple :
        {a b c d e f : FilePath}
        → a ≡ b
        → c ≡ d
        → e ≡ f
        → ◌≡◌ {A = FilePath × FilePath × FilePath} (a, c, e) (b, d, f)
    triple p q r = cc (p, q, r)

-- The pieces between the slashes of a name.
abbrev pieces_of : String → FilePath
pieces_of name = let (piece, pieces) = split_on b'/' name in piece ∷ pieces

-- Where a name leads to when it is opened in a directory: an absolute one starts at the root, any
-- other one in the directory, and each piece is followed.
unfoldable pub arrive : FilePath → String → FilePath
unfolding walk split_on
arrive here name = walk (if is_absolute name then [] else here) (pieces_of name)

arrive-parts :
    (here : FilePath) (name : String)
    → is_absolute name ≡ false
    → arrive here name ≡ walk here (parts name)
unfolding arrive parts
arrive-parts here name h =
    ap (λ (b : Bool). walk (if b then [] else here) (pieces_of name)) h
    ∙ sym (walk-kept here (pieces_of name))
    ∙ ap
        (λ (b : Bool). walk here (if b then "/" ∷ kept (pieces_of name) else kept (pieces_of name)))
        (sym h)

-- A value that `_safe_relative_name` accepts is a text that, opened in any directory, leads strictly
-- below it: through the parts of the accepted path, of which there is at least one. So the text is not
-- absolute, and nothing in it goes up.
pub safe_relative_name-IsBelow :
    (value : Value) (path : FilePath)
    → safe_relative_name value ≡ ok path
    → (name : String) × (value ≡ str name)
      × (path ≢ [])
      × ((here : FilePath) → arrive here name ≡ below here path)
unfolding safe_relative_name
safe_relative_name-IsBelow (str name) path h =
    let (relative, h1) =
      (require-then (not (str_eq name "") && not (is_absolute name)) not_relative _).0 h in
    let (plain, h2) =
      (require-then (not (is_empty (parts name)) && are_plain (parts name)) escapes_root _).0 h1 in
    let (_, h3) = (require-then (not (any (λ c. c == 0) (codes name))) contains_nul _).0 h2 in
    let same = ok_injective h3 in
    let (some_part, all_plain) =
      (&&-eq-true (not (is_empty (parts name))) (are_plain (parts name))).0 plain in
    let (_, rooted) = (&&-eq-true (not (str_eq name "")) (not (is_absolute name))).0 relative in
    (
      name,
      refl,
      λ e. absurd_empty (parts name) some_part (same ∙ e),
      λ here.
          arrive-parts here name (not_absolute (is_absolute name) rooted)
          ∙ walk-plain here (parts name) all_plain
          ∙ ap (below here) same,
    )
  where
    not_absolute : (b : Bool) → not b ≡ true → b ≡ false
    not_absolute true e = cc
    not_absolute false e = refl

    absurd_empty : (p : FilePath) → not (is_empty p) ≡ true → p ≢ []
    absurd_empty [] a e = cc
    absurd_empty (x ∷ p) a e = cc
safe_relative_name-IsBelow _ path h = cc
