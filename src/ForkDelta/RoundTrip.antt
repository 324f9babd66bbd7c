-- ===== src/ForkDelta/RoundTrip.antt =====
-- freeze_fork_delta.py: `verify` after `freeze`.
use my_ad.Prelude.{
  String, ◌≡◌, ◌≢◌, refl, sym, ap, ◌∙◌, List, [], ◌∷◌, map, ok, >>=-eq-ok, require, Among, inl, inr,
  str_eq_refl, str_eq_ne,
}
use my_ad.Json.Unique.{IsUnique}
use my_ad.StageReport.Host.{Bytes, regular, Files}
use my_ad.StageReport.Write.{replace}
use my_ad.Prelude.{require-then, ok_injective}
use my_ad.ForkDelta.Delta.{
  Source, carla, ue, sources, not_directory, os_error, Machine, PatchRecord, patch_path, fork_delta,
  record_of, freeze_each, freeze, verify_each, verify,
}
use my_ad.ForkDelta.Drift.{same_bytes_refl}

module _ (m : Machine) where
  -- What one turn of the loop leaves for the rest of it.
  record IsTurn (files : Files) (name : Source) (names : List Source) (records : List PatchRecord)
      (after : Files) : Type 0 where
    diff : Bytes
    delta : fork_delta m name ≡ ok diff
    rest : List PatchRecord
    made : freeze_each m (replace files (patch_path m name) diff) names ≡ ok (rest, after)
    listed : records ≡ record_of m name diff ∷ rest

  IsTurn-of :
      (files : Files) (name : Source) (names : List Source) (records : List PatchRecord)
      (after : Files)
      → freeze_each m files (name ∷ names) ≡ ok (records, after)
      → IsTurn files name names records after
  unfolding freeze_each
  IsTurn-of files name names records after h =
      let (diff, a, h1) = >>=-eq-ok (fork_delta m name) _ h in
      let (_, b, h2) =
        >>=-eq-ok (require (m.writable (patch_path m name)) (os_error (patch_path m name))) _ h1 in
      let (done, c, h3) =
        >>=-eq-ok (freeze_each m (replace files (patch_path m name) diff) names) _ h2 in
      let e = ok_injective h3 in
      record {
        diff = diff;
        delta = a;
        rest = done.0;
        made =
            c ∙ ap (λ (f : Files). ok (done.0, f)) (ap (λ (r : List PatchRecord × Files). r.1) e);
        listed = sym (ap (λ (r : List PatchRecord × Files). r.0) e);
      }

  nothing :
      (files : Files) {result : List PatchRecord × Files}
      → freeze_each m files [] ≡ ok result
      → ◌≡◌ {A = List PatchRecord × Files} ([], files) result
  unfolding freeze_each
  nothing files h = ok_injective h

  replace_at :
      (files : Files) (path : String) (content : Bytes)
      → replace files path content path ≡ regular content
  unfolding replace
  replace_at files path content = rw (str_eq_refl path) refl

  replace_elsewhere :
      (files : Files) (path other : String) (content : Bytes)
      → other ≢ path
      → replace files path content other ≡ files other
  unfolding replace
  replace_elsewhere files path other content ne = rw (str_eq_ne other path ne) refl

  -- Freezing changes no file but the patches.
  freeze_each-frame :
      (files : Files) (names : List Source) (records : List PatchRecord) (after : Files)
      (other : String)
      → freeze_each m files names ≡ ok (records, after)
      → ¬ Among other (map (patch_path m) names)
      → after other ≡ files other
  freeze_each-frame files [] records after other h n =
      sym (ap (λ (r : List PatchRecord × Files). r.1 other) (nothing files h))
  freeze_each-frame files (name ∷ names) records after other h n =
      let turn = IsTurn-of files name names records after h in
      freeze_each-frame (replace files (patch_path m name) turn.diff) names turn.rest after other
        turn.made (λ k. n (inr k))
      ∙ replace_elsewhere files (patch_path m name) other turn.diff (λ e. n (inl e))

  verify_turn :
      (files : Files) (name : Source) (names : List Source) (diff : Bytes)
      (records : List PatchRecord)
      → files (patch_path m name) ≡ regular diff
      → fork_delta m name ≡ ok diff
      → verify_each m files names ≡ ok ([], records)
      → verify_each m files (name ∷ names) ≡ ok ([], record_of m name diff ∷ records)
  unfolding verify_each
  verify_turn files name names diff records stored delta rest =
      rw (stored, delta, rest, same_bytes_refl diff) refl

  freeze_each-verify :
      (files : Files) (names : List Source) (records : List PatchRecord) (after : Files)
      → IsUnique (map (patch_path m) names)
      → freeze_each m files names ≡ ok (records, after)
      → verify_each m after names ≡ ok ([], records)
  freeze_each-verify files [] records after u h =
      unfold verify_each in ap (λ (r : List PatchRecord × Files). ok ([], r.0)) (nothing files h)
  freeze_each-verify files (name ∷ names) records after (fresh, u) h =
      let turn = IsTurn-of files name names records after h in
      let changed = replace files (patch_path m name) turn.diff in
      verify_turn after name names turn.diff turn.rest
        (freeze_each-frame changed names turn.rest after (patch_path m name) turn.made fresh
          ∙ replace_at files (patch_path m name) turn.diff)
        turn.delta (freeze_each-verify changed names turn.rest after u turn.made)
      ∙ ap (λ (r : List PatchRecord). ok ([], r)) (sym turn.listed)

  -- Right after a freeze that succeeds, with the repositories as they were and two different patch
  -- paths, a verification finds no drift and reports the very records of the freeze.
  pub freeze-verify :
      (files : Files) (records : List PatchRecord) (after : Files)
      → patch_path m carla ≢ patch_path m ue
      → freeze m files ≡ ok (records, after)
      → verify m after ≡ ok ([], records)
  unfolding freeze verify
  freeze-verify files records after ne h =
      let (_, h1) = (require-then m.is_usable not_directory _).0 h in
      let (_, h2) = (require-then m.can_make (os_error "") _).0 h1 in
      freeze_each-verify files sources records after
        ((λ k. elim k [ inl e ↦ ne e | inr n ↦ n ]), ((λ n. n), tt)) h2
