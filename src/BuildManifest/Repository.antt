-- ===== src/BuildManifest/Repository.antt =====
-- capture_build_manifest.py: `_verify_git`, for one checkout. What git answers, and what every look
-- at a file finds, are arguments: the untracked files are looked at twice.
use my_ad.Prelude.{
  ℕ, String, Bool, true, false, not, ◌&&◌, Option, none, some, List, [], ◌∷◌, ◌++◌, Result, ok, err,
  ◌>>=◌, ◌>>◌, require, str_eq, codes, length, is_space, leb, ◌==◌, if◌then◌else◌,
}
use my_ad.Prelude.Int.{pos}
use Prim.Native.Char.{code}
use my_ad.Json.{
  Value, bool, int, float, str, arr, obj, Items, nil, cons, Fields, get, is_str, is_int,
}
use my_ad.PyText.{same}
use my_ad.StageReport.Host.{Bytes}
use my_ad.ForkProvenance.Report.{precedes}
use my_ad.BuildManifest.Fault.{
  ManifestFault, not_relative, git_failed, bad_record, root_mismatch, head_changed, branch_changed,
  status_changed, cannot_read, patch_changed, diff_changed, diff_size_changed, bad_metadata,
  metadata_changed, snapshot_changed, file_set_changed,
}
use my_ad.BuildManifest.Paths.{
  FilePath, split_on, parts, is_absolute, safe_relative_name, same_path, is_below,
}
use my_ad.BuildManifest.Files.{Look, FileState, file_state, Disk, resolve_artifact}

-- `text.strip()`
unfoldable pub lstrip_text : String → String
unfolding is_space
lstrip_text String.[] = ""
lstrip_text (String.◌∷◌ c s) =
    let rest = lstrip_text s in if is_space (code c) then rest else String.◌∷◌ c s

unfoldable pub rstrip_text : String → String
unfolding is_space
rstrip_text String.[] = ""
rstrip_text (String.◌∷◌ c s) =
    let rest = rstrip_text s in
    if is_space (code c) && str_eq rest "" then "" else String.◌∷◌ c rest

unfoldable pub strip_text : String → String
unfolding lstrip_text rstrip_text
strip_text s = rstrip_text (lstrip_text s)

-- `sorted(names)`
unfoldable pub insert_name : String → List String → List String
insert_name name [] = name ∷ []
insert_name name (n ∷ names) =
    let rest = insert_name name names in
    if precedes (codes name) (codes n) then name ∷ n ∷ names else n ∷ rest

-- the names in the output of `git ls-files -z`, without empty ones
unfoldable pub sort_names : List String → List String
unfolding insert_name
sort_names [] = []
sort_names (name ∷ names) =
    let rest = sort_names names in if str_eq name "" then rest else insert_name name rest

unfoldable pub names_of : String → List String
unfolding split_on sort_names
names_of listing = let (name, names) = split_on 0 listing in sort_names (name ∷ names)

-- The machine, and one checkout. An output is none where git fails or the output is not UTF-8.
pub record Checkout : Type 0 where
  pub root : FilePath
  pub project_root : FilePath
  pub disk : Disk
  pub sha256 : Bytes → String
  pub head : Option String
  pub branch : Option String
  pub status : Option String
  pub diff : Option Bytes
  pub untracked : Option String
  -- the patch artifact, as `_sha256` and `read_bytes` find it
  pub digested : FilePath → Option Bytes
  pub read : FilePath → Option Bytes
  -- the looks at files for the recorded entries and for the live ones
  pub first_look : FilePath → Look
  pub second_look : FilePath → Look
  -- whether a float, by its bit pattern, equals a natural number
  pub float_equals : ℕ → ℕ → Bool

abbrev pub answer : {A : Type 0} → Option A → Result ManifestFault A
answer none = err git_failed
answer (some a) = ok a

abbrev pub read_or : {A : Type 0} → Option A → Result ManifestFault A
read_or none = err cannot_read
read_or (some a) = ok a

-- `isinstance(value, dict)` and `isinstance(value, list)`
abbrev pub object : Value → Result ManifestFault Fields
object (obj fields) = ok fields
object _ = err bad_record

abbrev pub items : Value → Result ManifestFault Items
items (arr xs) = ok xs
items _ = err bad_record

abbrev is_bool : Bool → Value → Bool
is_bool true (bool b) = b
is_bool false (bool b) = not b
is_bool _ _ = false

-- `type(value) is int and 0 <= value <= bound`, and `type(value) is bool`
abbrev is_natural : Value → Bool
is_natural (int (pos n)) = true
is_natural _ = false

abbrev is_mode : Value → Bool
is_mode (int (pos n)) = leb n 4095
is_mode _ = false

abbrev is_boolean : Value → Bool
is_boolean (bool b) = true
is_boolean _ = false

abbrev pub has_metadata : Fields → Bool
has_metadata item =
    is_natural (get "size" item)
    && (is_mode (get "mode" item) && is_boolean (get "executable" item))

-- the loop over the fields "sha256", "size", "mode" and "executable"
unfoldable pub matches : FileState → Fields → Bool
unfolding is_str is_int
matches state item =
    is_str state.sha256 (get "sha256" item)
    && (is_int state.size (get "size" item)
        && (is_int state.mode (get "mode" item)
            && is_bool state.executable (get "executable" item)))

abbrev pub state_text : String → String
state_text status = if str_eq status "" then "clean" else "dirty"

module _ (c : Checkout) where
  -- `_resolve_recorded`
  unfoldable pub resolve_recorded : Value → Result ManifestFault FilePath
  unfolding is_absolute parts
  resolve_recorded (str value) =
      require (not (str_eq value "") && not (is_absolute value)) not_relative
      >> ok (c.disk.resolve (c.project_root ++ parts value))
  resolve_recorded _ = err not_relative

  -- the record of git
  unfoldable pub check_state : Fields → Result ManifestFault (Unit {0})
  unfolding strip_text is_str
  check_state git = do
    head ← answer c.head
    branch ← answer c.branch
    status ← answer c.status
    require (is_str (strip_text head) (get "head" git)) head_changed
    require (is_str (strip_text branch) (get "branch" git)) branch_changed
    require (is_str status (get "status_porcelain" git)) status_changed
    require (is_str (state_text status) (get "status" git)) status_changed

  -- `value == len(diff)`
  unfoldable pub is_length : ℕ → Value → Bool
  is_length n (int (pos k)) = k == n
  is_length n (bool b) = n == (if b then 1 else 0)
  is_length n (float x) = c.float_equals x n
  is_length n _ = false

  -- the tracked diff and its patch
  unfoldable pub check_diff : FilePath → Value → Result ManifestFault (Unit {0})
  unfolding is_length resolve_artifact is_str
  check_diff artifact_dir tracked = do
    diff ← answer c.diff
    record_ ← object tracked
    patch ← resolve_artifact c.disk artifact_dir (get "path" record_)
    digested ← read_or (c.digested patch)
    require (is_str (c.sha256 digested) (get "sha256" record_)) patch_changed
    content ← read_or (c.read patch)
    require (same content diff) diff_changed
    require (is_length (length diff) (get "bytes" record_)) diff_size_changed

  -- the body of the loop over the recorded untracked files
  unfoldable pub check_item : FilePath → Fields → Result ManifestFault (Unit {0})
  unfolding matches file_state resolve_artifact safe_relative_name
  check_item artifact_dir item = do
    require (has_metadata item) bad_metadata
    relative ← safe_relative_name (get "path" item)
    source ← file_state c.sha256 (c.first_look (c.root ++ relative))
    require (matches source item) metadata_changed
    snapshot ← resolve_artifact c.disk artifact_dir (get "snapshot" item)
    archived ← file_state c.sha256 (c.first_look snapshot)
    require (matches archived item) metadata_changed
    require (same archived.content source.content) snapshot_changed

  unfoldable pub check_items : FilePath → Items → Result ManifestFault (Unit {0})
  unfolding check_item
  check_items artifact_dir nil = ok tt
  check_items artifact_dir (cons (obj item) rest) =
      check_item artifact_dir item >> check_items artifact_dir rest
  check_items artifact_dir (cons _ rest) = err bad_metadata

  -- the untracked files that are there, except those of the artifact
  unfoldable pub current_files :
      FilePath → List String → Result ManifestFault (List (FilePath × FileState))
  unfolding safe_relative_name is_below file_state
  current_files artifact_dir [] = ok []
  current_files artifact_dir (name ∷ names) =
      let rest = current_files artifact_dir names in
      safe_relative_name (str name) >>= λ relative.
      if is_below (c.disk.resolve artifact_dir) (c.disk.resolve (c.root ++ relative))
      then rest
      else (file_state c.sha256 (c.second_look (c.root ++ relative)) >>= λ state.
          rest >>= λ files. ok ((relative, state) ∷ files))

  -- `expected_live`
  unfoldable pub expected_live : Items → Result ManifestFault (List (FilePath × Fields))
  unfolding safe_relative_name
  expected_live nil = ok []
  expected_live (cons (obj item) rest) = safe_relative_name (get "path" item) >>= λ relative.
      expected_live rest >>= λ files. ok ((relative, item) ∷ files)
  expected_live (cons _ rest) = err bad_metadata

  -- `current == expected_live`
  unfoldable pub same_files : List (FilePath × FileState) → List (FilePath × Fields) → Bool
  unfolding same_path matches
  same_files [] [] = true
  same_files [] (_ ∷ _) = false
  same_files (_ ∷ _) [] = false
  same_files ((path, state) ∷ current) ((relative, item) ∷ expected) =
      same_path path relative && (matches state item && same_files current expected)

  -- `_verify_git`
  unfoldable pub verify_git : FilePath → Value → Result ManifestFault (Unit {0})
  unfolding resolve_recorded same_path check_state check_diff check_items names_of current_files
      expected_live same_files
  verify_git artifact_dir repository = do
    record_ ← object repository
    actual_root ← resolve_recorded (get "root" record_)
    require (same_path actual_root c.root) root_mismatch
    git ← object (get "git" record_)
    check_state git
    check_diff artifact_dir (get "tracked_diff" record_)
    expected ← items (get "untracked" record_)
    check_items artifact_dir expected
    listing ← answer c.untracked
    current ← current_files artifact_dir (names_of listing)
    live ← expected_live expected
    require (same_files current live) file_set_changed
