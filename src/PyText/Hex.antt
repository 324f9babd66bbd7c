-- ===== src/PyText/Hex.antt =====
-- Python's `int(text, 16)`.
use my_ad.Prelude.{
  ℕ, zero, suc, ◌+◌, ◌-◌, ◌*◌, Bool, true, false, ◌&&◌, Option, none, some, [], ◌∷◌, codes,
  is_space, leb, ◌==◌, if◌then◌else◌,
}
use my_ad.Prelude.Int.{ℤ, pos, negsuc}
use my_ad.PyText.{Text, after_prefix, strip, lstrip}

-- the value of an ASCII digit
abbrev pub hex_digit : ℕ → Option ℕ
hex_digit c =
    if leb b'0' c && leb c b'9'
    then some (c - b'0')
    else (if leb b'a' c && leb c b'f'
        then some (c - b'a' + 10)
        else (if leb b'A' c && leb c b'F' then some (c - b'A' + 10) else none))

abbrev starts_digit : Text → Bool
starts_digit [] = false
starts_digit (c ∷ s) = elim (hex_digit c) [ none ↦ false | some _ ↦ true ]

-- the value of digits, with single underscores between them
unfoldable pub hex_digits : ℕ → Text → Option ℕ
hex_digits n [] = some n
hex_digits n (c ∷ s) = elim (hex_digit c) [
  | some d ↦ hex_digits (16 * n + d) s
  | none ↦ let rest = hex_digits n s in if c == b'_' && starts_digit s then rest else none
]

-- the part behind "0x", and the underscore that may follow it
abbrev pub behind_prefix : Text → Text
behind_prefix s = elim (after_prefix (codes "0x") s) [
  | some rest ↦ behind_underscore rest
  | none ↦ elim (after_prefix (codes "0X") s) [ some rest ↦ behind_underscore rest | none ↦ s ]
]
  where
    behind_underscore : Text → Text
    behind_underscore [] = []
    behind_underscore (c ∷ rest) = if c == b'_' then rest else c ∷ rest

abbrev hex_natural : Text → Option ℕ
hex_natural s =
    let digits = behind_prefix s in if starts_digit digits then hex_digits 0 digits else none

-- `int(text, 16)`; none where it raises
unfoldable pub to_hex : Text → Option ℤ
unfolding strip lstrip is_space after_prefix hex_digits
to_hex text = elim (strip text) [
  | [] ↦ none
  | c ∷ s ↦
      if c == b'-'
      then (elim (hex_natural s) [
        | none ↦ none
        | some zero ↦ some (pos zero)
        | some (suc n) ↦ some (negsuc n)
      ])
      else (elim (hex_natural (if c == b'+' then s else c ∷ s)) [
        | none ↦ none
        | some n ↦ some (pos n)
      ])
]
