-- ===== src/Prelude/Lists.antt =====
-- Lists measured by native numbers, and bounded quantifiers that compute.
use Prim.Native.Nat.{ℕ, suc, ◌+◌}
use mathlib.Core.Path.{◌≡◌, refl}
use mathlib.Core.Logic.{◌↔◌, ◌⊎◌, inl, inr}
use mathlib.Core.Bool.{Bool, true, false, ◌&&◌, ◌||◌}
use mathlib.Core.List.{List, [], ◌∷◌, ◌++◌}
use native.Mathlib.Omega.{arith}

module _ {ℓ} {A : Type ℓ} where
  abbrev pub length : List A → ℕ
  length [] = 0
  length (x ∷ xs) = suc (length xs)

  abbrev pub is_empty : List A → Bool
  is_empty [] = true
  is_empty (x ∷ xs) = false

  abbrev pub any : (A → Bool) → List A → Bool
  any p [] = false
  any p (x ∷ xs) = p x || any p xs

  abbrev pub all : (A → Bool) → List A → Bool
  all p [] = true
  all p (x ∷ xs) = p x && all p xs

  -- A predicate of every item.
  abbrev pub All {κ} : (A → Type κ) → List A → Type κ
  All P [] = Unit
  All P (x ∷ xs) = P x × All P xs

module _ {ℓ} {A : Type ℓ} where
  pub length-append : (xs ys : List A) → length (xs ++ ys) ≡ length xs + length ys
  length-append [] ys = omega arith
  length-append (x ∷ xs) ys = omega (arith, length-append xs ys)

  -- Two parts of a list of errors are both empty exactly when the whole is.
  pub append-eq-nil : (xs ys : List A) → (xs ++ ys ≡ []) ↔ ((xs ≡ []) × (ys ≡ []))
  append-eq-nil [] ys = (λ h. (refl, h), λ h. h.1)
  append-eq-nil (x ∷ xs) ys = (λ h. cc, λ h. cc (h.0))

module _ {A : Type 0} where
  -- The item stands in the list; the place is kept.
  abbrev pub Among : A → List A → Type 0
  Among a [] = ⊥
  Among a (x ∷ xs) = (a ≡ x) ⊎ Among a xs

  pub All-at {κ} : (P : A → Type κ) {a : A} (xs : List A) → All P xs → Among a xs → P a
  All-at P [] h m = elim m [ ]
  All-at P (x ∷ xs) h (inl e) = rw e h.0
  All-at P (x ∷ xs) h (inr m) = All-at P xs h.1 m

  pub all-at : (p : A → Bool) {a : A} (xs : List A) → all p xs ≡ true → Among a xs → p a ≡ true
  all-at p [] h m = elim m [ ]
  all-at p (x ∷ xs) h (inl e) = rw e (ground arith)
  all-at p (x ∷ xs) h (inr m) = all-at p xs (ground arith) m

module _ {A : Type 0} where
  pub All-of {κ} : (P : A → Type κ) (xs : List A) → ((a : A) → Among a xs → P a) → All P xs
  All-of P [] h = tt
  All-of P (x ∷ xs) h = (h x (inl refl), All-of P xs (λ a m. h a (inr m)))

  pub Among-append_left : (a : A) (xs ys : List A) → Among a xs → Among a (xs ++ ys)
  Among-append_left a [] ys m = elim m [ ]
  Among-append_left a (x ∷ xs) ys (inl e) = inl e
  Among-append_left a (x ∷ xs) ys (inr m) = inr (Among-append_left a xs ys m)

  pub Among-append : (a : A) (xs ys : List A) → Among a (xs ++ ys) → Among a xs ⊎ Among a ys
  Among-append a [] ys m = inr m
  Among-append a (x ∷ xs) ys (inl e) = inl (inl e)
  Among-append a (x ∷ xs) ys (inr m) = elim (Among-append a xs ys m) [
    | inl l ↦ inl (inr l)
    | inr r ↦ inr r
  ]
