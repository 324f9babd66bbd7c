-- ===== src/ForkDelta/Delta.antt =====
-- freeze_fork_delta.py: `fork_delta`, `changed_files`, `patch_path`, `freeze`, `verify` and `main`
-- behind its argument parser.
use my_ad.Prelude.{
  ℕ, suc, String, Bool, true, false, ◌&&◌, ◌||◌, Option, none, some, List, [], ◌∷◌, ◌++◌, Result,
  ok, err, ◌>>=◌, ◌>>◌, require, ◌==◌, length, is_empty, codes, if◌then◌else◌,
}
use my_ad.StageReport.Host.{Bytes, Entry, absent, unreadable, regular, Files}
use my_ad.StageReport.Write.{replace}

-- `SOURCES`
pub data Source : Type 0 where
  carla ue : Source

abbrev pub sources : List Source
sources = carla ∷ ue ∷ []

-- `PATCH_NAMES`
unfoldable pub patch_name : Source → String
patch_name carla = "fork-working-tree-delta-carla.patch"
patch_name ue = "fork-working-tree-delta-ue.patch"

pub data DeltaFault : Type 0 where
  not_checkout git_failed missing : Source → DeltaFault
  not_directory : DeltaFault
  -- an OSError, which `main` does not catch
  os_error : String → DeltaFault

-- The machine, with the repositories and the patch directory of one call.
pub record Machine : Type 0 where
  -- `(repo / ".git").exists()`
  pub is_checkout : Source → Bool
  -- the output of `git diff --binary HEAD`; none where git fails
  pub git_diff : Source → Option Bytes
  -- `patch_dir / name`
  pub join : String → String
  -- `not patch_dir.exists() or patch_dir.is_dir()`
  pub is_usable : Bool
  pub can_make : Bool
  pub writable : String → Bool
  pub sha256 : Bytes → String

-- One record of the report.
pub record PatchRecord : Type 0 where
  pub source : Source
  pub path : String
  pub sha256 : String
  pub bytes : ℕ
  pub files : ℕ

pub data Row : Type 0 where
  bytes_row : Source → ℕ → ℕ → Row
  sha256_row : Source → String → String → Row
  files_row : Source → ℕ → ℕ → Row

-- `bytes.splitlines()`. `returned` says that the byte before was a carriage return, whose line feed
-- belongs to it.
unfoldable pub split_lines : Bool → Bytes → Bytes → List Bytes
split_lines returned line [] = if is_empty line then [] else line ∷ []
split_lines returned line (c ∷ rest) =
    let same_break = split_lines false line rest in
    let next = split_lines (c == 13) [] rest in
    let longer = split_lines false (line ++ c ∷ []) rest in
    if returned && c == 10 then same_break else (if c == 10 || c == 13 then line ∷ next else longer)

-- `line.startswith(prefix)`
unfoldable pub starts_with : Bytes → Bytes → Bool
starts_with [] line = true
starts_with (c ∷ prefix) [] = false
starts_with (c ∷ prefix) (d ∷ line) = c == d && starts_with prefix line

unfoldable pub count_headers : List Bytes → ℕ
unfolding starts_with
count_headers [] = 0
count_headers (line ∷ lines) =
    let n = count_headers lines in if starts_with (codes "diff --git ") line then suc n else n

-- `changed_files`
unfoldable pub changed_files : Bytes → ℕ
unfolding count_headers split_lines
changed_files diff = count_headers (split_lines false [] diff)

-- `frozen == live`
unfoldable pub same_bytes : Bytes → Bytes → Bool
same_bytes [] [] = true
same_bytes [] (_ ∷ _) = false
same_bytes (_ ∷ _) [] = false
same_bytes (a ∷ s) (b ∷ t) = a == b && same_bytes s t

module _ (m : Machine) where
  -- `patch_path`
  unfoldable pub patch_path : Source → String
  unfolding patch_name
  patch_path name = m.join (patch_name name)

  -- `fork_delta`
  unfoldable pub fork_delta : Source → Result DeltaFault Bytes
  fork_delta name =
      require (m.is_checkout name) (not_checkout name)
      >> (elim (m.git_diff name) [ none ↦ err (git_failed name) | some diff ↦ ok diff ])

  unfoldable pub record_of : Source → Bytes → PatchRecord
  unfolding patch_path changed_files
  record_of name diff = record {
    source = name;
    path = patch_path name;
    sha256 = m.sha256 diff;
    bytes = length diff;
    files = changed_files diff;
  }

  -- the loop of `freeze`: the records, and the files afterwards
  unfoldable pub freeze_each : Files → List Source → Result DeltaFault (List PatchRecord × Files)
  freeze_each files [] = ok ([], files)
  freeze_each files (name ∷ names) = fork_delta name >>= λ diff.
      require (m.writable (patch_path name)) (os_error (patch_path name)) >>= λ _.
      freeze_each (replace files (patch_path name) diff) names >>= λ done.
      ok (record_of name diff ∷ done.0, done.1)

  -- `freeze`
  unfoldable pub freeze : Files → Result DeltaFault (List PatchRecord × Files)
  freeze files =
      require m.is_usable not_directory
      >> (require m.can_make (os_error "") >> freeze_each files sources)

  abbrev pub rows_of : Source → Bytes → Bytes → List Row
  rows_of name frozen live =
      if same_bytes frozen live
      then []
      else bytes_row name (length frozen) (length live)
        ∷ sha256_row name (m.sha256 frozen) (m.sha256 live)
        ∷ files_row name (changed_files frozen) (changed_files live)
        ∷ []

  abbrev pub read_patch : Source → Entry → Result DeltaFault Bytes
  read_patch name absent = err (missing name)
  read_patch name unreadable = err (os_error (patch_path name))
  read_patch name (regular frozen) = ok frozen

  -- the loop of `verify`
  unfoldable pub verify_each : Files → List Source → Result DeltaFault (List Row × List PatchRecord)
  verify_each files [] = ok ([], [])
  verify_each files (name ∷ names) = read_patch name (files (patch_path name)) >>= λ frozen.
      fork_delta name >>= λ live. verify_each files names >>= λ rest.
      ok (rows_of name frozen live ++ rest.0, record_of name frozen ∷ rest.1)

  -- `verify`
  unfoldable pub verify : Files → Result DeltaFault (List Row × List PatchRecord)
  verify files = verify_each files sources

  abbrev caught : DeltaFault → Result DeltaFault ℕ
  caught (os_error path) = err (os_error path)
  caught _ = ok 2

  -- `main` of the action "verify": its exit code
  unfoldable pub main_verify : Files → Result DeltaFault ℕ
  main_verify files = elim (verify files) [
    | ok result ↦ if is_empty result.0 then ok 0 else ok 1
    | err fault ↦ caught fault
  ]
