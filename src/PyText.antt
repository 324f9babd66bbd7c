-- ===== src/PyText.antt =====
-- Python's `str` as a list of code points: the methods that the scripts call on lines of text, and a
-- dict of texts.
pub mod Laws
pub mod Hex
use my_ad.Prelude.Int.{ℤ, pos, negsuc}
use my_ad.Prelude.{
  zero, suc, ◌+◌, ◌-◌, ◌*◌, leb, ℕ, Bool, true, false, ◌&&◌, Option, none, some, List, [], ◌∷◌,
  ◌++◌, is_space, is_empty, reverse, ◌==◌, if◌then◌else◌,
}

abbrev pub Text : Type 0
Text = List ℕ

abbrev pub same : Text → Text → Bool
same [] [] = true
same [] (_ ∷ _) = false
same (_ ∷ _) [] = false
same (a ∷ s) (b ∷ t) = a == b && same s t

unfoldable pub lstrip : Text → Text
unfolding is_space
lstrip [] = []
lstrip (c ∷ s) = let rest = lstrip s in if is_space c then rest else c ∷ s

-- `text.strip()`
unfoldable pub strip : Text → Text
unfolding lstrip
strip s = reverse (lstrip (reverse (lstrip s)))

-- `text[len(prefix):]` if the text starts with the prefix
unfoldable pub after_prefix : Text → Text → Option Text
after_prefix [] s = some s
after_prefix (c ∷ prefix) [] = none
after_prefix (c ∷ prefix) (d ∷ s) = if c == d then after_prefix prefix s else none

-- `text.partition(separator)`; none where the separator does not occur
unfoldable pub partition : ℕ → Text → Option (Text × Text)
partition separator [] = none
partition separator (c ∷ s) =
    let rest = partition separator s in
    if c == separator
    then some ([], s)
    else elim rest [ none ↦ none | some (before, after) ↦ some (c ∷ before, after) ]

-- A dict of texts; an assignment to a key that is there replaces its value.
abbrev pub Dict : Type 0
Dict = List (Text × Text)

unfoldable pub assign : Text → Text → Dict → Dict
assign key value [] = (key, value) ∷ []
assign key value ((k, v) ∷ fields) =
    if same k key then (k, value) ∷ fields else (k, v) ∷ assign key value fields

unfoldable pub field_of : Text → Dict → Option Text
field_of key [] = none
field_of key ((k, v) ∷ fields) = if same k key then some v else field_of key fields

-- `text.split()`: `word` is the part of a word that has been read
unfoldable pub words : Text → Text → List Text
words word [] = if is_empty word then [] else word ∷ []
words word (c ∷ s) =
    let next = words [] s in
    let longer = words (word ++ c ∷ []) s in
    if is_space c then (if is_empty word then next else word ∷ next) else longer

-- `dict.pop(key, None)`
unfoldable pub remove {ℓ} : {A : Type ℓ} → Text → List (Text × A) → List (Text × A)
remove key [] = []
remove key ((k, v) ∷ entries) =
    let rest = remove key entries in if same k key then rest else (k, v) ∷ rest

-- `entries[key] = value` and `entries.get(key)`, of a dict of other values
unfoldable pub put {ℓ} : {A : Type ℓ} → Text → A → List (Text × A) → List (Text × A)
put key value [] = (key, value) ∷ []
put key value ((k, v) ∷ entries) =
    if same k key then (k, value) ∷ entries else (k, v) ∷ put key value entries

unfoldable pub find {ℓ} : {A : Type ℓ} → Text → List (Text × A) → Option A
find key [] = none
find key ((k, v) ∷ entries) = if same k key then some v else find key entries

-- `text.split(",", 2)` has three parts
abbrev pub three_parts : Text → Option (Text × Text × Text)
three_parts s = elim (partition b',' s) [
  | none ↦ none
  | some (a, rest) ↦ elim (partition b',' rest) [ none ↦ none | some (b, c) ↦ some (a, b, c) ]
]

-- ASCII digits, of which `text.isdigit()` and `int` accept the decimal ones of other scripts too
abbrev pub is_digit : ℕ → Bool
is_digit c = leb b'0' c && leb c b'9'

-- the value of digits, with the single underscores that `int` allows between them
unfoldable pub digits : ℕ → Text → Option ℕ
digits n [] = some n
digits n (c ∷ s) =
    let next = digits (10 * n + (c - b'0')) s in
    let gap : Option ℕ = elim s [ [] ↦ none | d ∷ _ ↦ if is_digit d then digits n s else none ] in
    if is_digit c then next else (if c == b'_' then gap else none)

-- `int(text)` of a text without a sign
unfoldable pub natural : Text → Option ℕ
unfolding digits
natural [] = none
natural (c ∷ s) = if is_digit c then digits 0 (c ∷ s) else none

-- `int(text)`; none where it raises
unfoldable pub to_int : Text → Option ℤ
unfolding strip lstrip natural
to_int text = elim (strip text) [
  | [] ↦ none
  | c ∷ s ↦
      if c == b'-'
      then (elim (natural s) [
        | none ↦ none
        | some zero ↦ some (pos zero)
        | some (suc n) ↦ some (negsuc n)
      ])
      else (elim (natural (if c == b'+' then s else c ∷ s)) [ none ↦ none | some n ↦ some (pos n) ])
]
