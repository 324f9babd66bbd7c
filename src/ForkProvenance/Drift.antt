-- ===== src/ForkProvenance/Drift.antt =====
-- report_fork_provenance.py: what a comparison without rows means.
use my_ad.Prelude.{
  ℕ, String, ◌≡◌, ◌↔◌, refl, true, List, [], ◌∷◌, Result, ok, err, append-eq-nil, Bool-cases, inl,
  inr, All, contains, contains_iff, Among, codes, is_empty, if◌then◌else◌, arith,
}
use my_ad.Json.{Value, Fields, end, field, get, keys}
use my_ad.StageReport.Host.{Entry}
use my_ad.ForkDelta.Delta.{Source, sources}
use my_ad.ForkProvenance.Report.{
  ProvenanceFault, Machine, source_name, build_provenance, load_recorded, equals, precedes,
  insert_field, sort_fields, fields_of, rows_of, compare_fields, compare_each, compare, exit_of,
  main_verify,
}

module _ (m : Machine) where
  -- Every field of the list is derived, and equal.
  abbrev pub AllAgree : Fields → Fields → Type 0
  AllAgree current end = Unit
  AllAgree current (field key expected rest) =
      (Among key (keys current) × (equals m (get key current) expected ≡ true))
      × AllAgree current rest

  rows_iff :
      (name : Source) (current : Fields) (key : String) (expected : Value)
      → (rows_of m name current key expected ≡ [])
        ↔ (Among key (keys current) × (equals m (get key current) expected ≡ true))
  rows_iff name current key expected = elim (Bool-cases (contains key (keys current))) [
    | inl c ↦ elim (Bool-cases (equals m (get key current) expected)) [
      | inl e ↦ (λ h. ((contains_iff key (keys current)).0 c, e), λ h. rw (c, e) refl)
      | inr e ↦ (λ h. cc (rw (c, e) at h), λ h. cc (e, h.1))
    ]
    | inr c ↦ (λ h. cc (rw c at h), λ h. cc (c, (contains_iff key (keys current)).1 h.0))
  ]

  compare_fields_iff :
      (name : Source) (current recorded : Fields)
      → (compare_fields m name current recorded ≡ []) ↔ AllAgree current recorded
  unfolding compare_fields
  compare_fields_iff name current end = (λ h. tt, λ h. refl)
  compare_fields_iff name current (field key expected rest) =
      let split =
        append-eq-nil (rows_of m name current key expected) (compare_fields m name current rest) in
      let here = rows_iff name current key expected in
      let later = compare_fields_iff name current rest in
      (λ h. (here.0 (split.0 h).0, later.0 (split.0 h).1), λ a. split.1 (here.1 a.0, later.1 a.1))

  -- Sorting the recorded fields loses none.
  insert_agree :
      (current : Fields) (key : String) (value : Value) (fields : Fields)
      → AllAgree current (insert_field key value fields) ↔ AllAgree current (field key value fields)
  unfolding insert_field
  insert_agree current key value end = (λ a. a, λ a. a)
  insert_agree current key value (field k v rest) =
      elim (Bool-cases (precedes (codes key) (codes k))) [
        | inl e ↦ rw e (λ a. a, λ a. a)
        | inr e ↦
            let (to, from) = insert_agree current key value rest in
            rw e (λ a. ((to a.1).0, (a.0, (to a.1).1)), λ a. (a.1.0, from (a.0, a.1.1)))
      ]

  sort_agree :
      (current fields : Fields) → AllAgree current (sort_fields fields) ↔ AllAgree current fields
  unfolding sort_fields
  sort_agree current end = (λ a. a, λ a. a)
  sort_agree current (field key value rest) =
      let (to, from) = insert_agree current key value (sort_fields rest) in
      let (down, up) = sort_agree current rest in
      (λ a. ((to a).0, down (to a).1), λ a. from (a.0, up a.1))

  -- The recorded fields of the source agree with the derived ones.
  abbrev pub Agrees : Fields → Fields → Source → Type 0
  Agrees recorded live name =
      AllAgree (fields_of (get (source_name name) live))
        (fields_of (get (source_name name) recorded))

  compare_each_iff :
      (recorded live : Fields) (names : List Source)
      → (compare_each m recorded live names ≡ []) ↔ All (Agrees recorded live) names
  unfolding compare_each
  compare_each_iff recorded live [] = (λ h. tt, λ h. refl)
  compare_each_iff recorded live (name ∷ names) =
      let current = fields_of (get (source_name name) live) in
      let fields = fields_of (get (source_name name) recorded) in
      let split =
        append-eq-nil (compare_fields m name current (sort_fields fields))
          (compare_each m recorded live names) in
      let here = compare_fields_iff name current (sort_fields fields) in
      let order = sort_agree current fields in
      let later = compare_each_iff recorded live names in
      (
        λ h. (order.0 (here.0 (split.0 h).0), later.0 (split.0 h).1),
        λ a. split.1 (here.1 (order.1 a.0), later.1 a.1),
      )

  -- The verification exits with 0 exactly when the live identity can be derived, the recorded one is
  -- well formed, and every field that it records, of either fork, is derived with an equal value.
  pub main_verify-zero_iff :
      (entry : Entry)
      → (main_verify m entry ≡ 0) ↔ (
          (live : Fields) × (recorded : Fields) × (build_provenance m ≡ ok live)
          × (load_recorded m entry ≡ ok recorded)
          × All (Agrees recorded live) sources)
  unfolding main_verify compare
  main_verify-zero_iff entry = (
    λ h. sound (build_provenance m) (load_recorded m entry) refl refl h,
    λ (live, recorded, b, l, a). rw (b, l, (compare_each_iff recorded live sources).1 a) refl,
  )
    where
      empty_of : {A : Type 0} (xs : List A) → ◌≡◌ {A = ℕ} (if is_empty xs then 0 else 1) 0 → xs ≡ []
      empty_of [] e = refl
      empty_of (x ∷ xs) e = absurd (omega arith)

      sound :
          (b l : Result ProvenanceFault Fields)
          → build_provenance m ≡ b
          → load_recorded m entry ≡ l
          → exit_of m b l ≡ 0
          → (live : Fields) × (recorded : Fields) × (build_provenance m ≡ ok live)
            × (load_recorded m entry ≡ ok recorded)
            × All (Agrees recorded live) sources
      sound (ok live) (ok recorded) p q e = (
        live,
        recorded,
        p,
        q,
        (compare_each_iff recorded live sources).0 (empty_of (compare m recorded live) e),
      )
      sound (ok live) (err f) p q e = absurd (omega arith)
      sound (err f) l p q e = absurd (omega arith)
