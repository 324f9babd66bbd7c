-- ===== src/ForkDelta/Samples.antt =====
-- A freeze of two deltas, and the verification after it.
use my_ad.Prelude.{
  ◌≡◌, ◌≢◌, ◌↔◌, refl, true, false, some, List, [], ◌∷◌, ok, All, codes, str_eq, str_eq_iff,
}
use my_ad.StageReport.Host.{Bytes, absent, Files}
use my_ad.StageReport.Write.{replace}
use my_ad.ForkDelta.Delta.{
  carla, ue, sources, Machine, PatchRecord, Row, split_lines, starts_with, count_headers,
  changed_files, patch_name, patch_path, fork_delta, record_of, same_bytes, freeze_each, freeze,
  verify_each, verify,
}
use my_ad.ForkDelta.Drift.{IsCurrent, verify_iff}
use my_ad.ForkDelta.RoundTrip.{freeze-verify}

abbrev diff : Bytes
diff = codes "diff --git a b"

abbrev machine : Machine
machine = record {
  is_checkout = λ name. true;
  git_diff = λ name. some diff;
  join = λ name. name;
  is_usable = true;
  can_make = true;
  writable = λ path. true;
  sha256 = λ content. "sum";
}

abbrev nothing : Files
nothing path = absent

abbrev frozen : Files
frozen =
    replace (replace nothing "fork-working-tree-delta-carla.patch" diff)
      "fork-working-tree-delta-ue.patch" diff

abbrev records : List PatchRecord
records =
    record {
      source = carla;
      path = "fork-working-tree-delta-carla.patch";
      sha256 = "sum";
      bytes = 14;
      files = 1;
    }
    ∷ record {
      source = ue;
      path = "fork-working-tree-delta-ue.patch";
      sha256 = "sum";
      bytes = 14;
      files = 1;
    }
    ∷ []

froze : freeze machine nothing ≡ ok (records, frozen)
unfolding freeze freeze_each fork_delta record_of patch_path patch_name changed_files count_headers
    split_lines starts_with
froze = refl

different : patch_path machine carla ≢ patch_path machine ue
unfolding patch_path patch_name
different e = cc (
  unequal,
  (str_eq_iff "fork-working-tree-delta-carla.patch" "fork-working-tree-delta-ue.patch").1 e,
)
  where
    unequal :
        str_eq "fork-working-tree-delta-carla.patch" "fork-working-tree-delta-ue.patch" ≡ false
    unequal = unfold str_eq in refl

freeze-verify_example : verify machine frozen ≡ ok ([], records)
freeze-verify_example = freeze-verify machine nothing records frozen different froze

verified : verify machine frozen ≡ ok ([], records)
unfolding verify verify_each fork_delta record_of patch_path patch_name changed_files count_headers
    split_lines starts_with same_bytes replace str_eq
verified = refl

verify_iff_example : (◌≡◌ {A = List Row} [] []) ↔ All (IsCurrent machine frozen) sources
verify_iff_example = verify_iff machine frozen [] records verified
