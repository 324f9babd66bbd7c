-- ===== src/ForkDelta/Drift.antt =====
-- What the verdict of `verify` means.
use my_ad.Prelude.{
  ◌≡◌, ◌↔◌, refl, sym, ap, ◌∙◌, true, List, [], ◌∷◌, ◌++◌, ok, >>=-eq-ok, ◌==◌, ==→eq, eq→==,
  &&-eq-true, Bool-cases, inl, inr, All, append-eq-nil,
}
use my_ad.StageReport.Host.{Bytes, Entry, absent, unreadable, regular, Files}
use my_ad.Prelude.{ok_injective}
use my_ad.ForkDelta.Delta.{
  Source, sources, Machine, PatchRecord, Row, same_bytes, patch_path, fork_delta, rows_of,
  read_patch, verify_each, verify,
}

pub same_bytes_refl : (s : Bytes) → same_bytes s s ≡ true
unfolding same_bytes
same_bytes_refl [] = refl
same_bytes_refl (a ∷ s) =
    (&&-eq-true (a == a) (same_bytes s s)).1 (eq→== a a refl, same_bytes_refl s)

pub same_bytes_eq : (s t : Bytes) → same_bytes s t ≡ true → s ≡ t
unfolding same_bytes
same_bytes_eq [] [] h = refl
same_bytes_eq [] (b ∷ t) h = cc
same_bytes_eq (a ∷ s) [] h = cc
same_bytes_eq (a ∷ s) (b ∷ t) h =
    let (x, y) = (&&-eq-true (a == b) (same_bytes s t)).0 h in
    let p = ==→eq a b x in let q = same_bytes_eq s t y in cc (p, q)

module _ (m : Machine) where
  rows_iff :
      (name : Source) (frozen live : Bytes) → (rows_of m name frozen live ≡ []) ↔ (frozen ≡ live)
  rows_iff name frozen live = elim (Bool-cases (same_bytes frozen live)) [
    | inl e ↦ (λ h. same_bytes_eq frozen live e, λ p. rw e refl)
    | inr e ↦ (λ h. cc (rw e at h), λ p. cc (e, same_bytes_refl frozen, ap (same_bytes frozen) p))
  ]

  -- The frozen patch is there, and is the delta of the repository.
  pub record IsCurrent (files : Files) (name : Source) : Type 0 where
    pub live : Bytes
    pub delta : fork_delta m name ≡ ok live
    pub stored : files (patch_path m name) ≡ regular live

  -- A frozen patch and a delta that could both be read.
  pub record IsRead (files : Files) (name : Source) (frozen live : Bytes) : Type 0 where
    pub stored : files (patch_path m name) ≡ regular frozen
    pub delta : fork_delta m name ≡ ok live

  read_patch_sound :
      (files : Files) (name : Source) (entry : Entry) {frozen : Bytes}
      → files (patch_path m name) ≡ entry
      → read_patch m name entry ≡ ok frozen
      → files (patch_path m name) ≡ regular frozen
  read_patch_sound files name absent e h = cc
  read_patch_sound files name unreadable e h = cc
  read_patch_sound files name (regular content) e h = e ∙ ap regular (ok_injective h)

  IsCurrent-iff :
      (files : Files) (name : Source) (frozen live : Bytes)
      → IsRead files name frozen live
      → (rows_of m name frozen live ≡ []) ↔ IsCurrent files name
  IsCurrent-iff files name frozen live r = (
    λ h. record {
      live = live;
      delta = r.delta;
      stored = r.stored ∙ ap regular ((rows_iff name frozen live).0 h);
    },
    λ c.
        (rows_iff name frozen live).1
          (regular_injective (sym r.stored ∙ c.stored) ∙ ok_injective (sym c.delta ∙ r.delta)),
  )
    where
      regular_injective : {s t : Bytes} → regular s ≡ regular t → s ≡ t
      regular_injective e = cc

  verify_each_iff :
      (files : Files) (names : List Source) (rows : List Row) (records : List PatchRecord)
      → verify_each m files names ≡ ok (rows, records)
      → (rows ≡ []) ↔ All (IsCurrent files) names
  unfolding verify_each
  verify_each_iff files [] rows records h =
      (λ e. tt, λ a. sym (ap (λ (r : List Row × List PatchRecord). r.0) (ok_injective h)))
  verify_each_iff files (name ∷ names) rows records h =
      let (frozen, a, h1) = >>=-eq-ok (read_patch m name (files (patch_path m name))) _ h in
      let (live, b, h2) = >>=-eq-ok (fork_delta m name) _ h1 in
      let (rest, c, h3) = >>=-eq-ok (verify_each m files names) _ h2 in
      let same : rows_of m name frozen live ++ rest.0 ≡ rows =
        ap (λ (r : List Row × List PatchRecord). r.0) (ok_injective h3) in
      let first = IsCurrent-iff files name frozen live (record {
        stored = read_patch_sound files name (files (patch_path m name)) refl a;
        delta = b;
      }) in
      let later = verify_each_iff files names rest.0 rest.1 c in
      (
        λ e.
            let (x, y) = (append-eq-nil (rows_of m name frozen live) rest.0).0 (same ∙ e) in
            (first.0 x, later.0 y),
        λ all.
            sym same
            ∙ (append-eq-nil (rows_of m name frozen live) rest.0).1 (first.1 all.0, later.1 all.1),
      )

  -- A verification that reports no drift found, for every fork, a patch that is byte for byte the
  -- delta of the repository; and one that reports some found a patch that is not.
  pub verify_iff :
      (files : Files) (rows : List Row) (records : List PatchRecord)
      → verify m files ≡ ok (rows, records)
      → (rows ≡ []) ↔ All (IsCurrent files) sources
  unfolding verify
  verify_iff files rows records h = verify_each_iff files sources rows records h
