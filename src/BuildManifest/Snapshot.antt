-- ===== src/BuildManifest/Snapshot.antt =====
-- capture_build_manifest.py: `_git_snapshot`. What the archive of a file finds, and the text of a
-- path relative to another, are arguments.
use my_ad.Prelude.{
  String, Bool, false, ◌&&◌, ◌||◌, Option, none, some, List, [], ◌∷◌, ◌++◌, Result, ok, ◌>>=◌, ◌>>◌,
  require, str_eq, codes, length, all, is_hex_lower, leb, ◌==◌, if◌then◌else◌,
}
use my_ad.Prelude.Int.{pos}
use my_ad.Json.{Value, bool, int, str, arr, obj, Items, nil, cons, Fields, end, field}
use my_ad.StageReport.Host.{Bytes}
use my_ad.BuildManifest.Fault.{ManifestFault, bad_head, os_error}
use my_ad.BuildManifest.Paths.{FilePath, parts, safe_relative_name, same_path, is_below}
use my_ad.BuildManifest.Files.{FileState, Copying, archive_file}
use my_ad.BuildManifest.Repository.{Checkout, answer, strip_text, names_of, state_text}

unfoldable pub append_text : String → String → String
append_text String.[] t = t
append_text (String.◌∷◌ c s) t = String.◌∷◌ c (append_text s t)

-- `path.as_posix()` of a relative path
unfoldable pub posix : FilePath → String
unfolding append_text
posix [] = "."
posix (part ∷ []) = part
posix (part ∷ next ∷ path) = append_text part (append_text "/" (posix (next ∷ path)))

-- `len(head) == 40 and all(char in HEX_SHA256 for char in head.lower())`
unfoldable pub is_head_text : String → Bool
unfolding is_hex_lower
is_head_text head =
    length (codes head) == 40 && all (λ c. is_hex_lower c || leb b'A' c && leb c b'F') (codes head)

-- The record of an untracked file.
abbrev pub item_of : FilePath → String → FileState → Value
item_of path snapshot state = obj (
    field "path" (str (posix path)) (
      field "snapshot" (str snapshot) (
        field "sha256" (str state.sha256) (
          field "size" (int (pos state.size)) (
            field "mode" (int (pos state.mode))
              (field "executable" (bool state.executable) end))))))

-- The record of git, and that of the tracked diff.
abbrev pub git_of : String → String → String → Fields
git_of head branch status = field "head" (str (strip_text head)) (
    field "branch" (str (strip_text branch))
      (field "status" (str (state_text status)) (field "status_porcelain" (str status) end)))

abbrev pub tracked_of : String → String → Bytes → Fields
tracked_of patch_name digest diff =
    field "path" (str patch_name)
      (field "sha256" (str digest) (field "bytes" (int (pos (length diff))) end))

abbrev pub repository_of : String → Fields → Fields → Items → Fields
repository_of root git tracked untracked = field "root" (str root) (
    field "identity" (str (append_text "project-relative:" root)) (
      field "git" (obj git)
        (field "tracked_diff" (obj tracked) (field "untracked" (arr untracked) end))))

-- The files of the artifact, by their paths.
abbrev pub Store : Type 0
Store = FilePath → Option Bytes

-- `path.write_bytes(content)`
unfoldable pub put_file : Store → FilePath → Bytes → Store
unfolding same_path
put_file files path content other = if same_path other path then some content else files other

-- what an archive leaves at its destination
abbrev pub archived : Store → FilePath → Option FileState → Store
archived files copy none = files
archived files copy (some state) = put_file files copy state.content

-- `path.relative_to(directory)`
unfoldable pub relative_to : FilePath → FilePath → Option FilePath
relative_to [] path = some path
relative_to (part ∷ directory) [] = none
relative_to (part ∷ directory) (head ∷ path) =
    if str_eq part head then relative_to directory path else none

-- `_publish`, to a path that is free: `os.rename(temporary, final)`
unfoldable pub publish : FilePath → FilePath → Store → Store
unfolding relative_to
publish temporary final files path = elim (relative_to final path) [
  | some relative ↦ files (temporary ++ relative)
  | none ↦ elim (relative_to temporary path) [ some _ ↦ none | none ↦ files path ]
]

-- What one capture of a checkout is given: the directory whose files are left out, the artifact
-- directory, the name of the repository, whether the patch can be written, what each archive finds,
-- and `_relative`.
pub record Taking (sha256 : Bytes → String) : Type 0 where
  pub excluded : Option FilePath
  pub artifact_dir : FilePath
  pub repo_name : String
  pub writable : Bool
  pub copying : FilePath → FilePath → Copying sha256
  pub relative : FilePath → FilePath → String

module _ (c : Checkout) (t : Taking c.sha256) where
  abbrev pub is_excluded : FilePath → Bool
  is_excluded path = elim t.excluded [
    | none ↦ false
    | some directory ↦ is_below (c.disk.resolve directory) (c.disk.resolve path)
  ]

  abbrev pub patch_name : String
  patch_name = append_text "git/" (append_text t.repo_name ".tracked.patch")

  -- the loop over the untracked names, with the files of the artifact
  unfoldable pub snapshot_files : Store → List String → Result ManifestFault (Items × Store)
  unfolding safe_relative_name is_below parts archive_file put_file
  snapshot_files files [] = ok (nil, files)
  snapshot_files files (name ∷ names) =
      let skipped = snapshot_files files names in
      if is_excluded (c.root ++ parts name)
      then skipped
      else (safe_relative_name (str name) >>= λ relative.
          let copy = t.artifact_dir ++ ("untracked" ∷ t.repo_name ∷ relative) in
          let archive = archive_file c.sha256 (t.copying (c.root ++ relative) copy) in
          archive.result >>= λ state.
          snapshot_files (archived files copy archive.published) names >>= λ rest.
          ok (cons (item_of relative (t.relative copy t.artifact_dir) state) rest.0, rest.1))

  -- `_git_snapshot`: the record, and the files of the artifact afterwards
  unfoldable pub git_snapshot : Store → Result ManifestFault (Fields × Store)
  unfolding is_head_text snapshot_files names_of strip_text append_text
  git_snapshot files = do
    head ← answer c.head
    require (is_head_text (strip_text head)) bad_head
    branch ← answer c.branch
    status ← answer c.status
    diff ← answer c.diff
    require t.writable os_error
    listing ← answer c.untracked
    taken ←
        snapshot_files (put_file files (t.artifact_dir ++ parts patch_name) diff) (names_of listing)
    ok (
      repository_of (t.relative c.root c.project_root) (git_of head branch status)
          (tracked_of patch_name (c.sha256 diff) diff) taken.0,
      taken.1,
    )
