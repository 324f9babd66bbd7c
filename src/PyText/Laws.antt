-- ===== src/PyText/Laws.antt =====
-- Equality of texts, and the laws of a dict that is a list of entries.
use my_ad.Prelude.{
  ◌≡◌, refl, ap, ◌∙◌, true, false, none, some, List, [], ◌∷◌, ◌==◌, ==→eq, eq→==, &&-eq-true,
  Bool-cases, inl, inr, if◌then◌else◌,
}
use my_ad.PyText.{Text, same, put, find, remove}

pub same_refl : (s : Text) → same s s ≡ true
same_refl [] = refl
same_refl (a ∷ s) = (&&-eq-true (a == a) (same s s)).1 (eq→== a a refl, same_refl s)

pub same_eq : (s t : Text) → same s t ≡ true → s ≡ t
same_eq [] [] h = refl
same_eq [] (b ∷ t) h = cc
same_eq (a ∷ s) [] h = cc
same_eq (a ∷ s) (b ∷ t) h =
    let (x, y) = (&&-eq-true (a == b) (same s t)).0 h in
    let p = ==→eq a b x in let q = same_eq s t y in cc (p, q)

-- No key stands twice.
abbrev pub AreFresh {ℓ} : {A : Type ℓ} → List (Text × A) → Type ℓ
AreFresh [] = Unit
AreFresh ((k, v) ∷ entries) = (find k entries ≡ none) × AreFresh entries

-- Another key is not changed.
apart : (k l c : Text) → same k l ≡ true → same k c ≡ same l c
apart k l c h = ap (λ (x : Text). same x c) (same_eq k l h)

apart_other : (l k c : Text) → same l k ≡ false → same l c ≡ true → same k c ≡ false
apart_other l k c e f = elim (Bool-cases (same k c)) [
  | inl g ↦ cc (e, ap (same l) (same_eq k c g), f)
  | inr g ↦ g
]

same_sym : (k l : Text) → same k l ≡ false → same l k ≡ false
same_sym k l h = elim (Bool-cases (same l k)) [
  | inl g ↦ cc (h, same_refl k, ap (same k) (same_eq l k g))
  | inr g ↦ g
]

module _ {A : Type 0} where
  pub find-cons_same :
      (c k : Text) (v : A) (d : List (Text × A)) → same k c ≡ true → find c ((k, v) ∷ d) ≡ some v
  unfolding find
  find-cons_same c k v d h = rw h refl

  pub find-cons_other :
      (c k : Text) (v : A) (d : List (Text × A)) → same k c ≡ false → find c ((k, v) ∷ d) ≡ find c d
  unfolding find
  find-cons_other c k v d h = rw h refl

  pub find-put :
      (c k : Text) (v : A) (d : List (Text × A))
      → find c (put k v d) ≡ (if same k c then some v else find c d)
  unfolding find put
  find-put c k v [] = refl
  find-put c k v ((l, w) ∷ d) = elim (Bool-cases (same l k)) [
    | inl e ↦ elim (Bool-cases (same k c)) [
      | inl f ↦ rw (e, f, apart l k c e ∙ f) refl
      | inr f ↦ rw (e, f, apart l k c e ∙ f) refl
    ]
    | inr e ↦ elim (Bool-cases (same l c)) [
      | inl f ↦ rw (e, f, apart_other l k c e f) refl
      | inr f ↦ rw (e, f) (find-put c k v d)
    ]
  ]

  pub find-remove :
      (c k : Text) (d : List (Text × A))
      → find c (remove k d) ≡ (if same k c then none else find c d)
  unfolding find remove
  find-remove c k [] = elim (Bool-cases (same k c)) [ inl e ↦ rw e refl | inr e ↦ rw e refl ]
  find-remove c k ((l, w) ∷ d) = elim (Bool-cases (same l k)) [
    | inl e ↦ elim (Bool-cases (same k c)) [
      | inl f ↦ rw (e, find-remove c k d, f) refl
      | inr f ↦ rw (e, find-remove c k d, f, apart l k c e ∙ f) refl
    ]
    | inr e ↦ elim (Bool-cases (same l c)) [
      | inl f ↦ rw (e, f, apart_other l k c e f) refl
      | inr f ↦ rw (e, f) (find-remove c k d)
    ]
  ]

  pub put-AreFresh : (k : Text) (v : A) (d : List (Text × A)) → AreFresh d → AreFresh (put k v d)
  unfolding put find
  put-AreFresh k v [] f = (refl, tt)
  put-AreFresh k v ((l, w) ∷ d) (n, f) = elim (Bool-cases (same l k)) [
    | inl e ↦ rw e (n, f)
    | inr e ↦ rw e (find-put l k v d ∙ still k l e n, put-AreFresh k v d f)
  ]
    where
      still :
          (k l : Text)
          → same l k ≡ false
          → find l d ≡ none
          → (if same k l then some v else find l d) ≡ none
      still k l e n = rw (same_sym l k e) n

  pub remove-AreFresh : (k : Text) (d : List (Text × A)) → AreFresh d → AreFresh (remove k d)
  unfolding remove
  remove-AreFresh k [] f = tt
  remove-AreFresh k ((l, w) ∷ d) (n, f) = elim (Bool-cases (same l k)) [
    | inl e ↦ rw e (remove-AreFresh k d f)
    | inr e ↦ rw e (find-remove l k d ∙ still k l e n, remove-AreFresh k d f)
  ]
    where
      still :
          (k l : Text)
          → same l k ≡ false
          → find l d ≡ none
          → (if same k l then none else find l d) ≡ none
      still k l e n = rw (same_sym l k e) n
