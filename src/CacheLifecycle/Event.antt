-- ===== src/CacheLifecycle/Event.antt =====
-- One line of cache-lifecycle.txt, as the regular expression `EVENT` splits it. Handles and thread
-- numbers stay texts, which the script compares as they stand.
use my_ad.Prelude.{ℕ, String, ◌≡◌, ◌↔◌, refl, Bool, true, false}
use my_ad.Prelude.Int.{ℤ}

pub data Kind : Type 0 where
  module_ layout pass descriptor : Kind

pub data Action : Type 0 where
  create enqueue destroy : Action

pub data Operation : Type 0 where
  create_cache destroy_cache merge get_data graphics compute : Operation
  object : Kind → Action → Operation

pub data Phase : Type 0 where
  enter return : Phase

pub record Event : Type 0 where
  pub number : ℕ
  pub operation : Operation
  pub phase : Phase
  pub thread : String
  pub cache : String
  pub other : String
  pub result : ℤ

unfoldable pub Operation-discrete : Discrete Operation
Operation-discrete = hlevel

unfoldable pub same_operation : Operation → Operation → Bool
same_operation a b = elim (Operation-discrete a b) [ yes _ ↦ true | no _ ↦ false ]

pub same_operation_iff : (a b : Operation) → (same_operation a b ≡ true) ↔ (a ≡ b)
unfolding same_operation
same_operation_iff a b =
    elim (Operation-discrete a b)
      as (λ d. ((elim d [ yes _ ↦ true | no _ ↦ false ]) ≡ true) ↔ (a ≡ b)) [
        | yes e ↦ (λ _. e, λ _. refl)
        | no n ↦ (λ h. cc, λ e. absurd (n e))
      ]

unfoldable pub Kind-discrete : Discrete Kind
Kind-discrete = hlevel

unfoldable pub same_kind : Kind → Kind → Bool
same_kind a b = elim (Kind-discrete a b) [ yes _ ↦ true | no _ ↦ false ]
