-- ===== src/RuntimeGate/PayloadLaws.antt =====
-- What an accepted image and an accepted provenance are.
use my_ad.Prelude.{
  ℕ, ◌*◌, ◌<◌, ◌≤◌, ◌≡◌, ◌↔◌, ◌⊎◌, inl, inr, refl, sym, ap, ◌∙◌, Bool, true, false, ◌&&◌, ◌||◌, [],
  ◌∷◌, ◌++◌, ok, ltb, ◌==◌, length, arith, ||-eq-true, eq→==, ==→eq, Among, if◌then◌else◌,
}
use my_ad.StageReport.Host.{Bytes}
use my_ad.Prelude.{require-then, ok_injective}
use my_ad.RuntimeGate.Payload.{
  width, height, bad_width, bad_height, wrong_dimensions, wrong_size, constant_image, every_fourth,
  least, greatest, varies, ImageMetrics, validate_image,
}

-- Two bytes of the channel differ.
pub record Differ (channel : Bytes) : Type 0 where
  pub low : ℕ
  pub high : ℕ
  pub low_in : Among low channel
  pub high_in : Among high channel
  pub ordered : low < high

pick :
    (b : Bool) (x y z : ℕ) (rest : Bytes)
    → Among z ((if b then y else x) ∷ rest)
    → Among z (x ∷ y ∷ rest)
pick true x y z rest m = inr m
pick false x y z rest (inl e) = inl e
pick false x y z rest (inr m) = inr (inr m)

least_in : (x : ℕ) (rest : Bytes) → Among (least x rest) (x ∷ rest)
unfolding least
least_in x [] = inl refl
least_in x (y ∷ rest) = pick (ltb y x) x y _ rest (least_in (if ltb y x then y else x) rest)

greatest_in : (x : ℕ) (rest : Bytes) → Among (greatest x rest) (x ∷ rest)
unfolding greatest
greatest_in x [] = inl refl
greatest_in x (y ∷ rest) = pick (ltb x y) x y _ rest (greatest_in (if ltb x y then y else x) rest)

lower_le : (x y : ℕ) → ((if ltb y x then y else x) ≤ x) × ((if ltb y x then y else x) ≤ y)
lower_le x y = ground arith

upper_ge : (x y : ℕ) → (x ≤ (if ltb x y then y else x)) × (y ≤ (if ltb x y then y else x))
upper_ge x y = ground arith

least_le : (x : ℕ) (rest : Bytes) {z : ℕ} → Among z (x ∷ rest) → least x rest ≤ z
unfolding least
least_le x [] (inl e) = omega (arith, e)
least_le x [] (inr m) = elim m [ ]
least_le x (y ∷ rest) m =
    let next = if ltb y x then y else x in
    let (l, r) = lower_le x y in
    elim m [
      | inl e ↦ omega (arith, e, l, least_le next rest (inl refl))
      | inr (inl e) ↦ omega (arith, e, r, least_le next rest (inl refl))
      | inr (inr n) ↦ least_le next rest (inr n)
    ]

greatest_ge : (x : ℕ) (rest : Bytes) {z : ℕ} → Among z (x ∷ rest) → z ≤ greatest x rest
unfolding greatest
greatest_ge x [] (inl e) = omega (arith, e)
greatest_ge x [] (inr m) = elim m [ ]
greatest_ge x (y ∷ rest) m =
    let next = if ltb x y then y else x in
    let (l, r) = upper_ge x y in
    elim m [
      | inl e ↦ omega (arith, e, l, greatest_ge next rest (inl refl))
      | inr (inl e) ↦ omega (arith, e, r, greatest_ge next rest (inl refl))
      | inr (inr n) ↦ greatest_ge next rest (inr n)
    ]

varies_iff : (channel : Bytes) → (varies channel ≡ true) ↔ Differ channel
unfolding varies
varies_iff [] = (λ h. cc, λ d. elim d.low_in [ ])
varies_iff (x ∷ rest) = (
  λ h. record {
    low = least x rest;
    high = greatest x rest;
    low_in = least_in x rest;
    high_in = greatest_in x rest;
    ordered = ground (arith, least_le x rest (inl refl), greatest_ge x rest (inl refl));
  },
  λ d. ground (arith, least_le x rest d.low_in, greatest_ge x rest d.high_in, d.ordered),
)

-- One of the three color channels holds two bytes that differ.
abbrev pub HasPicture : Bytes → Type 0
HasPicture data_ =
    Differ (every_fourth 0 data_) ⊎ (Differ (every_fourth 1 data_) ⊎ Differ (every_fourth 2 data_))

-- The image has the size that was asked for, one byte for each of the four channels of a pixel,
-- and is no constant one.
pub record IsImage (data_ : Bytes) (w h : ℕ) : Type 0 where
  pub wide : w ≡ width
  pub high : h ≡ height
  pub size : length data_ ≡ width * height * 4
  pub picture : HasPicture data_

picture_iff :
    (data_ : Bytes)
    → (varies (every_fourth 0 data_)
          || (varies (every_fourth 1 data_) || varies (every_fourth 2 data_))
        ≡ true)
      ↔ HasPicture data_
picture_iff data_ =
    let blue = every_fourth 0 data_ in
    let green = every_fourth 1 data_ in
    let red = every_fourth 2 data_ in
    (
      λ e. elim ((||-eq-true (varies blue) (varies green || varies red)).0 e) [
        | inl b ↦ inl ((varies_iff blue).0 b)
        | inr r ↦ elim ((||-eq-true (varies green) (varies red)).0 r) [
          | inl g ↦ inr (inl ((varies_iff green).0 g))
          | inr d ↦ inr (inr ((varies_iff red).0 d))
        ]
      ],
      λ p. (||-eq-true (varies blue) (varies green || varies red)).1 (elim p [
        | inl b ↦ inl ((varies_iff blue).1 b)
        | inr r ↦ inr (
            (||-eq-true (varies green) (varies red)).1 (elim r [
              | inl g ↦ inl ((varies_iff green).1 g)
              | inr d ↦ inr ((varies_iff red).1 d)
            ]))
      ]),
    )

abbrev pub metrics_of : Bytes → ImageMetrics
metrics_of data_ = record {
  width = width;
  height = height;
  bytes = width * height * 4;
  rgb = every_fourth 0 data_ ++ (every_fourth 1 data_ ++ every_fourth 2 data_);
  bgra = data_;
}

IsImage-sound :
    (data_ : Bytes) (w h : ℕ) {m : ImageMetrics}
    → validate_image data_ w h ≡ ok m
    → IsImage data_ w h × (m.bytes ≡ width * height * 4)
unfolding validate_image
IsImage-sound data_ w h {m} e =
    let (_, e1) = (require-then (ltb 0 w) bad_width _).0 e in
    let (_, e2) = (require-then (ltb 0 h) bad_height _).0 e1 in
    let (dim, e3) = (require-then (w == width && h == height) wrong_dimensions _).0 e2 in
    let (size, e4) = (require-then (length data_ == w * h * 4) wrong_size _).0 e3 in
    let (varied, e5) =
      (require-then
          (varies (every_fourth 0 data_)
            || (varies (every_fourth 1 data_) || varies (every_fourth 2 data_)))
          constant_image _).0
        e4 in
    let (wide, tall) = dimensions dim in
    let sized = ==→eq (length data_) (w * h * 4) size in
    let right : length data_ ≡ width * height * 4 = sized ∙ cc (wide, tall) in
    (
      record { wide = wide; high = tall; size = right; picture = (picture_iff data_).0 varied },
      ap (λ (k : ImageMetrics). k.bytes) (sym (ok_injective e5)) ∙ right,
    )
  where
    dimensions : w == width && h == height ≡ true → (w ≡ width) × (h ≡ height)
    dimensions d = ground arith

pub image_at :
    (data_ : Bytes)
    → length data_ ≡ width * height * 4
    → HasPicture data_
    → validate_image data_ width height ≡ ok (metrics_of data_)
unfolding validate_image
image_at data_ size picture =
    rw (eq→== (length data_) (width * height * 4) size, (picture_iff data_).1 picture, size) refl

image_complete :
    (data_ : Bytes) (w h : ℕ)
    → IsImage data_ w h
    → (m : ImageMetrics) × (validate_image data_ w h ≡ ok m)
image_complete data_ w h i =
    (metrics_of data_, ap2_image i.wide i.high ∙ image_at data_ i.size i.picture)
  where
    ap2_image : {a b : ℕ} → w ≡ a → h ≡ b → validate_image data_ w h ≡ validate_image data_ a b
    ap2_image p q = cc (p, q)

-- An image is accepted exactly when it has the requested dimensions, four bytes for each pixel, and
-- two different bytes in one of its color channels; the fourth channel does not count.
pub validate_image_iff :
    (data_ : Bytes) (w h : ℕ)
    → ((m : ImageMetrics) × (validate_image data_ w h ≡ ok m)) ↔ IsImage data_ w h
validate_image_iff data_ w h = (λ (m, e). (IsImage-sound data_ w h e).0, image_complete data_ w h)
