-- ===== src/BuildManifest/CaptureSamples.antt =====
-- Tests of the capture and the verification of a checkout and of the environment, and the witnesses.
use my_ad.Prelude.{
  Among, inl, String, ◌≡◌, refl, Bool, true, false, none, some, [], ◌∷◌, ok, err, is_hex_lower,
  is_space, contains, str_eq, if◌then◌else◌, ◌||◌,
}
use my_ad.Prelude.Int.{pos}
use my_ad.Json.{
  get, Value, bool, int, str, arr, obj, Items, nil, cons, Fields, end, field, is_int, is_str,
}
use my_ad.BuildManifest.Fault.{head_changed, file_set_changed}
use my_ad.BuildManifest.Paths.{
  same_path, FilePath, split_on, kept, parts, is_absolute, are_plain, safe_relative_name, is_below,
}
use my_ad.BuildManifest.Files.{file_state, check_copy, archive_file, descend, resolve_artifact}
use my_ad.BuildManifest.Repository.{
  Checkout, lstrip_text, rstrip_text, strip_text, insert_name, sort_names, names_of, matches,
  resolve_recorded, check_state, is_length, check_diff, check_item, check_items, current_files,
  expected_live, same_files, verify_git,
}
use my_ad.ForkDelta.Delta.{starts_with}
use my_ad.BuildManifest.Environment.{
  Variables, environment, select_variables, sort_variables, insert_variable, is_secret, is_allowed,
  search, folded, runtime_gate, normalized_command,
}
use my_ad.BuildManifest.EnvironmentLaws.{IsPublic, environment-IsPublic}
use my_ad.BuildManifest.Snapshot.{
  Store, put_file, relative_to, publish, append_text, posix, is_head_text, item_of, git_of,
  tracked_of, repository_of, Taking, patch_name, snapshot_files, git_snapshot,
}
use my_ad.BuildManifest.SnapshotLaws.{published, git_snapshot-check}
use my_ad.BuildManifest.UntrackedLaws.{IsCurrent, verify_git-IsCurrent}
use my_ad.BuildManifest.Samples.{digest, look, state, copying, disk, artifact_dir, commit}

-- A checkout with a tracked diff and one untracked file; git also lists a file of the artifact.

abbrev names_b : FilePath → Bool
names_b [] = false
names_b (part ∷ path) = str_eq part "b.txt" || names_b path

-- b.txt leads into the artifact directory
abbrev resolved : FilePath → FilePath
resolved path = if names_b path then "p" ∷ "run" ∷ "b.txt" ∷ [] else path

abbrev checkout : Checkout
checkout = record {
  root = "p" ∷ "carla" ∷ [];
  project_root = "p" ∷ [];
  disk = record disk { resolve = resolved };
  sha256 = digest;
  head = some "abc\n";
  branch = some "main\n";
  status = some " M a\n";
  diff = some (1 ∷ 2 ∷ 3 ∷ []);
  untracked = some "b.txt\0a.txt\0";
  digested = λ path. some (1 ∷ 2 ∷ 3 ∷ []);
  read = λ path. some (1 ∷ 2 ∷ 3 ∷ []);
  first_look = λ path. look;
  second_look = λ path. look;
  float_equals = λ x n. false;
}

abbrev recorded : String → Items → Value
recorded head entries = obj (
    field "root" (str "carla") (
      field "git"
        (obj (
          field "head" (str head) (
            field "branch" (str "main")
              (field "status" (str "dirty") (field "status_porcelain" (str " M a\n") end)))))
        (field "tracked_diff"
          (obj (
            field "path" (str "git/carla.tracked.patch")
              (field "sha256" (str "d") (field "bytes" (int (pos 3)) end))))
          (field "untracked" (arr entries) end))))

abbrev recorded_file : Value
recorded_file = obj (
    field "path" (str "a.txt") (
      field "snapshot" (str "untracked/carla/a.txt") (
        field "sha256" (str "d") (
          field "size" (int (pos 2))
            (field "mode" (int (pos 420)) (field "executable" (bool false) end))))))

checkout_verifies :
    verify_git checkout artifact_dir (recorded "abc" (cons recorded_file nil)) ≡ ok tt
unfolding verify_git resolve_recorded same_path check_state check_diff check_items check_item
    names_of sort_names insert_name current_files expected_live same_files matches strip_text
    lstrip_text rstrip_text is_length file_state resolve_artifact descend is_below
    safe_relative_name is_absolute parts split_on kept are_plain contains str_eq is_space is_str
    is_int
checkout_verifies = refl

checkout_moved :
    verify_git checkout artifact_dir (recorded "abd" (cons recorded_file nil)) ≡ err head_changed
unfolding verify_git resolve_recorded same_path check_state strip_text lstrip_text rstrip_text
    is_absolute parts split_on kept str_eq is_space is_str
checkout_moved = refl

file_appeared : verify_git checkout artifact_dir (recorded "abc" nil) ≡ err file_set_changed
unfolding verify_git resolve_recorded same_path check_state check_diff check_items check_item
    names_of sort_names insert_name current_files expected_live same_files matches strip_text
    lstrip_text rstrip_text is_length file_state resolve_artifact descend is_below
    safe_relative_name is_absolute parts split_on kept are_plain contains str_eq is_space is_str
    is_int
file_appeared = refl

verify_git-IsCurrent_example :
    IsCurrent checkout artifact_dir (recorded "abc" (cons recorded_file nil))
verify_git-IsCurrent_example =
    verify_git-IsCurrent checkout artifact_dir (recorded "abc" (cons recorded_file nil))
      checkout_verifies

-- The environment.

abbrev variables : Variables
variables =
    ("UE_AUTHOR", "x")
    ∷ ("PATH", "/bin")
    ∷ ("HOME", "/h")
    ∷ ("CC", "gcc")
    ∷ ("carla_token", "t")
    ∷ []

two_public : environment variables ≡ record {
  values = ("CC", "gcc") ∷ ("PATH", "/bin") ∷ [];
  redacted_keys = "UE_AUTHOR" ∷ "carla_token" ∷ [];
}
unfolding environment select_variables sort_variables insert_variable is_secret is_allowed search
    folded starts_with contains str_eq
two_public = refl

environment-IsPublic_example : Among ("CC", "gcc") variables × IsPublic "CC"
unfolding environment select_variables sort_variables insert_variable is_secret is_allowed search
    folded starts_with contains str_eq
environment-IsPublic_example = environment-IsPublic variables "CC" "gcc" (inl refl)

container_runs :
    runtime_gate
      (record { machine = "aarch64"; in_container = true; has_docker = false; docker_info = none })
    ≡ ok (record { host_arch = "arm64"; docker_arch = "arm64"; container = true })
unfolding runtime_gate contains str_eq
container_runs = refl

-- the path below the root
abbrev from_root : String → FilePath
from_root value = elim (parts value) [ [] ↦ [] | root ∷ path ↦ path ]

command_shortened :
    normalized_command from_root (λ path. "x") ("p" ∷ []) ("make" ∷ "/p/x" ∷ "/q/x" ∷ [])
    ≡ "make" ∷ "x" ∷ "/q/x" ∷ []
unfolding normalized_command is_absolute is_below parts split_on kept str_eq
command_shortened = refl

-- The capture of the checkout, which archives a.txt and leaves b.txt out.

abbrev at_commit : Checkout
at_commit = record checkout { head = some commit }

abbrev temporary : FilePath
temporary = "p" ∷ "tmp" ∷ []

abbrev taking : Taking digest
taking = record {
  excluded = some artifact_dir;
  artifact_dir = temporary;
  repo_name = "carla";
  writable = true;
  copying = λ source destination. copying;
  relative = λ path base. "r";
}

abbrev taken : Fields
taken =
    repository_of "r" (git_of commit "main" " M a\n")
      (tracked_of "git/carla.tracked.patch" "d" (1 ∷ 2 ∷ 3 ∷ []))
      (cons (item_of ("a.txt" ∷ []) "r" state) nil)

abbrev no_files : Store
no_files path = none

-- The patch and the copy of the untracked file.
abbrev after : Store
after =
    put_file (put_file no_files ("p" ∷ "tmp" ∷ "git" ∷ "carla.tracked.patch" ∷ []) (1 ∷ 2 ∷ 3 ∷ []))
      ("p" ∷ "tmp" ∷ "untracked" ∷ "carla" ∷ "a.txt" ∷ []) (7 ∷ 8 ∷ [])

checkout_taken : git_snapshot at_commit taking no_files ≡ ok (taken, after)
unfolding git_snapshot snapshot_files is_head_text is_hex_lower append_text posix names_of
    sort_names insert_name strip_text lstrip_text rstrip_text archive_file check_copy file_state
    is_below safe_relative_name is_absolute parts split_on kept are_plain contains str_eq is_space
checkout_taken = refl

abbrev patch : FilePath
patch = "p" ∷ "run" ∷ "git" ∷ "carla.tracked.patch" ∷ []

patch_resolves :
    resolve_artifact at_commit.disk artifact_dir (str (patch_name at_commit taking)) ≡ ok patch
unfolding resolve_artifact descend is_below safe_relative_name is_absolute parts split_on kept
    are_plain contains str_eq append_text
patch_resolves = refl

copy_renamed :
    publish temporary artifact_dir after ("p" ∷ "run" ∷ "untracked" ∷ "carla" ∷ "a.txt" ∷ [])
    ≡ some (7 ∷ 8 ∷ [])
unfolding publish relative_to put_file same_path str_eq
copy_renamed = refl

git_snapshot-check_example :
    ((git : Fields) × (get "git" taken ≡ obj git)
      × (check_state (published at_commit taking artifact_dir after) git ≡ ok tt))
    × (check_diff
          (published at_commit taking artifact_dir after)
          artifact_dir
          (get "tracked_diff" taken)
        ≡ ok tt)
git_snapshot-check_example =
    git_snapshot-check at_commit taking no_files taken after checkout_taken artifact_dir patch
      patch_resolves
