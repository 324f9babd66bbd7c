-- ===== src/BuildManifest/Files.antt =====
-- capture_build_manifest.py: `_file_state`, `_archive_file` and `_resolve_artifact`. Every look at a
-- file is an argument, so that a file may change between two of them.
use my_ad.Prelude.{
  ℕ, ◌/◌, ◌%◌, String, Bool, false, not, ◌&&◌, ◌||◌, Option, none, some, [], ◌∷◌, ◌++◌, Result, ok,
  err, ◌>>=◌, ◌>>◌, require, str_eq, length, ◌==◌, if◌then◌else◌,
}
use my_ad.Json.{Value}
use my_ad.StageReport.Host.{Bytes}
use my_ad.BuildManifest.Fault.{
  ManifestFault, cannot_stat, cannot_read, not_regular, became_non_regular, file_changed,
  incomplete_read, overwrites, content_mismatch, mode_mismatch, source_changed, os_error, symlink,
  escapes_artifact,
}
use my_ad.BuildManifest.Paths.{FilePath, safe_relative_name, is_below}

-- The fields of `os.stat_result` that are compared.
pub record Stat : Type 0 where
  pub dev : ℕ
  pub ino : ℕ
  pub size : ℕ
  pub mtime_ns : ℕ
  pub ctime_ns : ℕ
  pub mode : ℕ

-- `lstat`, `read_bytes` and `lstat` again; none where one of them raises.
pub record Look : Type 0 where
  pub before : Option Stat
  pub content : Option Bytes
  pub after : Option Stat

pub record FileState : Type 0 where
  pub content : Bytes
  pub sha256 : String
  pub size : ℕ
  pub mode : ℕ
  pub executable : Bool

-- `stat.S_ISREG` and `stat.S_IMODE`
abbrev pub is_regular : ℕ → Bool
is_regular mode = mode / 4096 % 16 == 8

abbrev pub permissions : ℕ → ℕ
permissions mode = mode % 4096

-- `bool(mode & 0o111)`
abbrev is_executable : ℕ → Bool
is_executable mode = mode % 2 == 1 || mode / 8 % 2 == 1 || mode / 64 % 2 == 1

abbrev pub same_stat : Stat → Stat → Bool
same_stat a b =
    a.dev == b.dev
    && (a.ino == b.ino
        && (a.size == b.size
            && (a.mtime_ns == b.mtime_ns && (a.ctime_ns == b.ctime_ns && a.mode == b.mode))))

abbrev or_fault : {A : Type 0} → ManifestFault → Option A → Result ManifestFault A
or_fault fault none = err fault
or_fault fault (some a) = ok a

module _ (sha256 : Bytes → String) where
  abbrev pub state_of : Bytes → Stat → FileState
  state_of content after = record {
    content = content;
    sha256 = sha256 content;
    size = length content;
    mode = permissions after.mode;
    executable = is_executable after.mode;
  }

  -- `_file_state`
  unfoldable pub file_state : Look → Result ManifestFault FileState
  file_state look = do
    before ← or_fault cannot_stat look.before
    require (is_regular before.mode) not_regular
    content ← or_fault cannot_read look.content
    after ← or_fault cannot_read look.after
    require (is_regular after.mode) became_non_regular
    require (same_stat before after) file_changed
    require (length content == after.size) incomplete_read
    ok (state_of content after)

  -- What the calls of one `_archive_file` find: the looks at the source, at the copy before and after
  -- `chmod`, and at the source again, and which of the calls that write succeed: `made` the directories,
  -- `unlinked` the removal behind the link, and `removed` that of the handler.
  pub record Copying : Type 0 where
    pub source : Look
    pub taken : Bool
    pub made : Bool
    pub written : Bool
    pub copied : Look
    pub chmod : Bool
    pub finished : Look
    pub latest : Look
    pub linked : Bool
    pub unlinked : Bool
    pub removed : Bool

  -- the body of its `try`, up to the link; the state is what was read of the source first
  unfoldable pub check_copy : Copying → FileState → Result ManifestFault FileState
  unfolding file_state
  check_copy c state = do
    require c.written os_error
    copied ← file_state c.copied
    require (str_eq copied.sha256 state.sha256 && copied.size == state.size) content_mismatch
    require c.chmod os_error
    finished ← file_state c.finished
    require (finished.mode == state.mode) mode_mismatch
    latest ← file_state c.latest
    require (str_eq latest.sha256 state.sha256 && latest.mode == state.mode) source_changed
    require c.linked os_error
    ok finished

  -- The outcome: the record that is returned, what stands at the destination because of the call, and
  -- whether the temporary file may be left behind.
  pub record Archive : Type 0 where
    pub result : Result ManifestFault FileState
    pub published : Option FileState
    pub leftover : Bool

  abbrev rejected : ManifestFault → Archive
  rejected fault = record { result = err fault; published = none; leftover = false }

  -- the handler, with what the call has published
  abbrev handled : Copying → ManifestFault → Option FileState → Archive
  handled c fault published = record {
    result = err (if c.removed then fault else os_error);
    published = published;
    leftover = not c.removed;
  }

  -- `_archive_file`
  unfoldable pub archive_file : Copying → Archive
  unfolding check_copy file_state
  archive_file c = elim (file_state c.source) [
    | err fault ↦ rejected fault
    | ok state ↦
        if c.taken
        then rejected overwrites
        else (if c.made
            then (elim (check_copy c state) [
              | err fault ↦ handled c fault none
              | ok finished ↦
                  if c.unlinked
                  then record { result = ok state; published = some finished; leftover = false }
                  else handled c os_error (some finished)
            ])
            else rejected os_error)
  ]

-- What `_resolve_artifact` asks of the machine.
pub record Disk : Type 0 where
  pub is_symlink : FilePath → Bool
  -- `path.resolve()`
  pub resolve : FilePath → FilePath
  -- `_regular_file` accepts the path
  pub is_file : FilePath → Bool

module _ (disk : Disk) where
  -- the loop over the parts, from a path that has been checked
  unfoldable pub descend : FilePath → FilePath → Result ManifestFault FilePath
  descend path [] = ok path
  descend path (part ∷ rest) =
      require (not (disk.is_symlink (path ++ part ∷ []))) symlink
      >> descend (path ++ part ∷ []) rest

  -- `_resolve_artifact`
  unfoldable pub resolve_artifact : FilePath → Value → Result ManifestFault FilePath
  unfolding descend safe_relative_name is_below
  resolve_artifact directory value = do
    relative ← safe_relative_name value
    path ← descend directory relative
    require (is_below (disk.resolve directory) (disk.resolve path)) escapes_artifact
    require (disk.is_file path) not_regular
    ok path
