-- ===== src/Prelude/Text.antt =====
-- Python's `str`: comparison, membership in a list of names, `strip` and character classes.
use Prim.Native.Nat.{ℕ}
use Prim.Native.Char.{code}
use Prim.Native.String.{String}
use mathlib.Core.Path.{◌≡◌, refl}
use mathlib.Core.Logic.{◌≢◌, ◌↔◌, inl, inr}
use mathlib.Core.Bool.{Bool, true, false, ◌&&◌, ◌||◌}
use mathlib.Core.List.{List, [], ◌∷◌}
use native.Mathlib.Omega.{arith}
use text.Mathlib.Text.{◌==◌ as eq}
use text.Mathlib.TextEquality.{eq_iff}
use my_ad.Prelude.Tests.{leb, ◌==◌, Bool-cases}
use my_ad.Prelude.Lists.{any, all, length, Among}

unfoldable pub str_eq : String → String → Bool
str_eq a b = eq a b

pub str_eq_iff : (a b : String) → (str_eq a b ≡ true) ↔ (a ≡ b)
unfolding str_eq
str_eq_iff a b = eq_iff a b

pub str_eq_refl : (a : String) → str_eq a a ≡ true
str_eq_refl a = (str_eq_iff a a).1 refl

pub str_eq_ne : (a b : String) → a ≢ b → str_eq a b ≡ false
str_eq_ne a b h = elim (Bool-cases (str_eq a b)) [
  | inl e ↦ absurd (h ((str_eq_iff a b).0 e))
  | inr e ↦ e
]

-- `name in names`
unfoldable pub contains : String → List String → Bool
contains a xs = any (str_eq a) xs

pub contains_iff : (a : String) (xs : List String) → (contains a xs ≡ true) ↔ Among a xs
unfolding contains
contains_iff a xs = (to xs, from xs)
  where
    to : (l : List String) → any (str_eq a) l ≡ true → Among a l
    to [] h = cc
    to (x ∷ l) h = elim (Bool-cases (str_eq a x)) [
      | inl e ↦ inl ((str_eq_iff a x).0 e)
      | inr e ↦ inr (to l (rw e at h))
    ]

    from : (l : List String) → Among a l → any (str_eq a) l ≡ true
    from [] m = elim m [ ]
    from (x ∷ l) (inl e) = rw ((str_eq_iff a x).1 e)
    from (x ∷ l) (inr m) = ground (arith, from l m)

-- The code points of a text.
abbrev pub codes : String → List ℕ
codes String.[] = []
codes (String.◌∷◌ c s) = code c ∷ codes s

-- The characters that `str.strip()` removes.
unfoldable pub is_space : ℕ → Bool
is_space c =
    leb 9 c && leb c 13
    || leb 28 c && leb c 32
    || c == 0x85
    || c == 0xa0
    || c == 0x1680
    || leb 0x2000 c && leb c 0x200a
    || c == 0x2028
    || c == 0x2029
    || c == 0x202f
    || c == 0x205f
    || c == 0x3000

-- `not text.strip()`
unfoldable pub is_blank : String → Bool
unfolding is_space
is_blank s = all is_space (codes s)

-- `[0-9a-f]`
unfoldable pub is_hex_lower : ℕ → Bool
is_hex_lower c = leb b'0' c && leb c b'9' || leb b'a' c && leb c b'f'

-- `re.fullmatch(r"[0-9a-f]{64}", text)`
unfoldable pub is_sha256 : String → Bool
unfolding is_hex_lower
is_sha256 s = length (codes s) == 64 && all is_hex_lower (codes s)
