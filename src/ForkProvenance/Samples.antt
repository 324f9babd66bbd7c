-- ===== src/ForkProvenance/Samples.antt =====
-- Two clean forks, and a recorded identity that agrees with them.
use my_ad.Prelude.{◌≡◌, ◌↔◌, refl, true, false, some, [], ◌∷◌, ok, All, codes, is_space}
use my_ad.Prelude.Int.{pos}
use my_ad.PyText.{strip, lstrip}
use my_ad.Json.{int, str, obj, Fields, end, field}
use my_ad.StageReport.Host.{regular}
use my_ad.ForkDelta.Delta.{sources, starts_with}
use my_ad.ForkProvenance.Report.{
  Machine, source_name, count_status, describe_source, build_sources, build_provenance,
  load_recorded, main_verify,
}
use my_ad.ForkProvenance.Drift.{Agrees, main_verify-zero_iff}

abbrev fork : Fields
fork = field "location" (str "/src") (
    field "revision" (str "a1") (
      field "branch" (str "main") (
        field "subject" (str "s") (
          field "tracked_dirty_files" (int (pos 1))
            (field "untracked_files" (int (pos 1)) (field "tracked_diff_sha256" (str "d") end))))))

abbrev derived : Fields
derived = field "carla" (obj fork) (field "ue" (obj fork) end)

abbrev machine : Machine
machine = record {
  is_checkout = λ name. true;
  git_diff = λ name. some [];
  git_status = λ name. some (codes " M a.cpp" ∷ codes "?? b.cpp" ∷ codes "" ∷ []);
  git_head = λ name. some "a1";
  git_subject = λ name. some "s";
  branch = λ name. "main";
  location = λ name. "/src";
  sha256 = λ content. "d";
  parse =
      λ raw. some (obj (field "schema_version" (int (pos 1)) (field "sources" (obj derived) end)));
  float_equals = λ x n. false;
}

built : build_provenance machine ≡ ok derived
unfolding build_provenance build_sources describe_source count_status source_name strip lstrip
    is_space starts_with
built = refl

main_verify-zero_iff_example : (main_verify machine (regular []) ≡ 0) ↔ (
    (live : Fields) × (recorded : Fields) × (build_provenance machine ≡ ok live)
    × (load_recorded machine (regular []) ≡ ok recorded)
    × All (Agrees machine recorded live) sources)
main_verify-zero_iff_example = main_verify-zero_iff machine (regular [])
