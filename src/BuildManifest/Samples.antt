-- ===== src/BuildManifest/Samples.antt =====
-- Tests of names, files, source.lock and the change ledger, and the witnesses.
use my_ad.Prelude.{
  String, ◌≡◌, ◌≢◌, ◌↔◌, refl, Bool, true, false, some, List, [], ◌∷◌, Result, ok, err, codes, All,
  is_hex_lower, is_space, is_blank, contains, str_eq,
}
use my_ad.Prelude.Int.{pos}
use my_ad.Json.{Value, int, str, arr, obj, Items, nil, cons, Fields, end, field, is_text, is_int}
use my_ad.PyText.{Text, lstrip, strip, after_prefix, find}
use my_ad.StageReport.Host.{Bytes}
use my_ad.BuildManifest.Fault.{
  os_error, ManifestFault, not_relative, escapes_root, file_changed, repeated_source,
  bad_identifier, symlink,
}
use my_ad.BuildManifest.Paths.{
  FilePath, split_on, kept, parts, is_absolute, are_plain, safe_relative_name, is_below,
}
use my_ad.BuildManifest.PathLaws.{arrive, below, safe_relative_name-IsBelow}
use my_ad.BuildManifest.Files.{
  Stat, Look, FileState, file_state, Copying, check_copy, archive_file, Disk, descend,
  resolve_artifact,
}
use my_ad.BuildManifest.FileLaws.{IsArtifact, resolve_artifact-IsArtifact}
use my_ad.BuildManifest.Lock.{
  span, strip_quotes, is_commit, pin_source, read_line, read_lines, LockFile, lock_lines,
  source_lock_sources, lock_source_repos, DriftReport, state_of as pin_state, drift_entries,
  drifted_names, uncovered, source_lock_drift, agrees,
}
use my_ad.BuildManifest.LockLaws.{
  ArePins, source_lock_sources-ArePins, KeepsPin, source_lock_drift_iff,
}
use my_ad.BuildManifest.Ledger.{
  check_paths, check_all_paths, check_content, check_entries, validate_change_ledger,
}
use my_ad.BuildManifest.LedgerLaws.{IsLedger, validate_change_ledger-IsLedger}

-- Names.

abbrev two_parts : FilePath
two_parts = "Docs" ∷ "a.txt" ∷ []

two_parts_safe : safe_relative_name (str "Docs/./a.txt") ≡ ok two_parts
unfolding safe_relative_name is_absolute parts split_on kept are_plain contains str_eq
two_parts_safe = refl

upward_unsafe : safe_relative_name (str "Docs/../../a.txt") ≡ err escapes_root
unfolding safe_relative_name is_absolute parts split_on kept are_plain contains str_eq
upward_unsafe = refl

absolute_unsafe : safe_relative_name (str "/etc/a.txt") ≡ err not_relative
unfolding safe_relative_name is_absolute str_eq
absolute_unsafe = refl

safe_relative_name-IsBelow_example :
    (name : String) × (str "Docs/./a.txt" ≡ str name)
    × (two_parts ≢ [])
    × ((here : FilePath) → arrive here name ≡ below here two_parts)
safe_relative_name-IsBelow_example =
    safe_relative_name-IsBelow (str "Docs/./a.txt") two_parts two_parts_safe

-- Files.

abbrev pub digest : Bytes → String
digest content = "d"

abbrev plain_stat : Stat
plain_stat = record { dev = 1; ino = 2; size = 2; mtime_ns = 3; ctime_ns = 4; mode = 33188 }

abbrev pub look : Look
look = record { before = some plain_stat; content = some (7 ∷ 8 ∷ []); after = some plain_stat }

abbrev pub state : FileState
state = record { content = 7 ∷ 8 ∷ []; sha256 = "d"; size = 2; mode = 420; executable = false }

look_state : file_state digest look ≡ ok state
unfolding file_state
look_state = refl

touched_look :
    file_state digest (record look { after = some (record plain_stat { mtime_ns = 9 }) })
    ≡ err file_changed
unfolding file_state
touched_look = refl

abbrev pub copying : Copying digest
copying = record {
  source = look;
  taken = false;
  made = true;
  written = true;
  copied = look;
  chmod = true;
  finished = look;
  latest = look;
  linked = true;
  unlinked = true;
  removed = true;
}

copying_archived :
    archive_file digest copying
    ≡ record { result = ok state; published = some state; leftover = false }
unfolding archive_file check_copy file_state str_eq
copying_archived = refl

-- The first removal fails and the second does not.
copying_stuck :
    archive_file digest (record copying { unlinked = false })
    ≡ record { result = err os_error; published = some state; leftover = false }
unfolding archive_file check_copy file_state str_eq
copying_stuck = refl

abbrev pub disk : Disk
disk = record { is_symlink = λ path. false; resolve = λ path. path; is_file = λ path. true }

abbrev pub artifact_dir : FilePath
artifact_dir = "p" ∷ "run" ∷ []

abbrev snapshot_path : FilePath
snapshot_path = "p" ∷ "run" ∷ "Docs" ∷ "a.txt" ∷ []

snapshot_resolves : resolve_artifact disk artifact_dir (str "Docs/a.txt") ≡ ok snapshot_path
unfolding resolve_artifact descend is_below safe_relative_name is_absolute parts split_on kept
    are_plain contains str_eq
snapshot_resolves = refl

linked_refused :
    resolve_artifact (record disk { is_symlink = λ path. true }) artifact_dir (str "Docs/a.txt")
    ≡ err symlink
unfolding resolve_artifact descend is_below safe_relative_name is_absolute parts split_on kept
    are_plain contains str_eq
linked_refused = refl

resolve_artifact-IsArtifact_example : IsArtifact disk artifact_dir (str "Docs/a.txt") snapshot_path
resolve_artifact-IsArtifact_example =
    resolve_artifact-IsArtifact disk artifact_dir (str "Docs/a.txt") snapshot_path snapshot_resolves

-- The lock.

abbrev pub commit : String
commit = "0123456789012345678901234567890123456789"

abbrev engine_commit : String
engine_commit = "abcdefabcdefabcdefabcdefabcdefabcdefabcd"

abbrev lock : LockFile
lock = lock_lines (
    codes "version: 1"
    ∷ codes "sources:"
    ∷ codes "  carla:"
    ∷ codes "    url: x"
    ∷ codes "    commit: '0123456789012345678901234567890123456789'"
    ∷ codes "  unreal_engine:"
    ∷ codes "    commit: abcdefabcdefabcdefabcdefabcdefabcdefabcd"
    ∷ codes "other:"
    ∷ [])

abbrev pins : List (Text × Text)
pins = (codes "unreal_engine", codes engine_commit) ∷ (codes "carla", codes commit) ∷ []

lock_read : source_lock_sources lock ≡ ok (some pins)
unfolding source_lock_sources read_lines read_line pin_source is_commit is_hex_lower strip_quotes
    span find lstrip strip after_prefix is_space
lock_read = refl

pinned_twice :
    source_lock_sources (
      lock_lines (
        codes "sources:"
        ∷ codes "  carla:"
        ∷ codes "    commit: 0123456789012345678901234567890123456789"
        ∷ codes "    commit: 0123456789012345678901234567890123456789"
        ∷ []))
    ≡ err repeated_source
unfolding source_lock_sources read_lines read_line pin_source is_commit is_hex_lower strip_quotes
    span find lstrip strip after_prefix is_space
pinned_twice = refl

source_lock_sources-ArePins_example : ArePins pins
source_lock_sources-ArePins_example = source_lock_sources-ArePins lock pins lock_read

abbrev repositories : String → Fields
repositories head =
    field "carla" (obj (field "git" (obj (field "head" (str head) end)) end))
      (field "ue" (obj (field "git" (obj (field "head" (str engine_commit) end)) end)) end)

drifted_lock : Result ManifestFault DriftReport → List String
drifted_lock (ok report) = report.drifted
drifted_lock (err _) = []

other_head : drifted_lock (source_lock_drift lock (repositories "abc")) ≡ "carla" ∷ []
unfolding drifted_lock source_lock_drift source_lock_sources read_lines read_line pin_source
    is_commit is_hex_lower strip_quotes span find lstrip strip after_prefix is_space drift_entries
    drifted_names uncovered pin_state str_eq
other_head = refl

abbrev report : DriftReport
report = record {
  lock_present = true;
  pins =
      record {
        lock_source = "carla";
        pin = some (codes commit);
        actual_head = str commit;
        state = agrees;
      }
      ∷ record {
        lock_source = "unreal_engine";
        pin = some (codes engine_commit);
        actual_head = str engine_commit;
        state = agrees;
      }
      ∷ [];
  drifted = [];
  uncovered_lock_sources = [];
}

lock_kept : source_lock_drift lock (repositories commit) ≡ ok report
unfolding source_lock_drift source_lock_sources read_lines read_line pin_source is_commit
    is_hex_lower strip_quotes span find lstrip strip after_prefix is_space drift_entries
    drifted_names uncovered pin_state str_eq
lock_kept = refl

source_lock_drift_iff_example :
    (report.drifted ≡ []) ↔ All (KeepsPin pins (repositories commit)) lock_source_repos
source_lock_drift_iff_example =
    source_lock_drift_iff pins (repositories commit) lock report lock_read lock_kept

-- The ledger.

abbrev ledger_entry : Value
ledger_entry = obj (
    field "id" (str "one") (
      field "category" (str "build") (
        field "change" (str "c") (
          field "reason" (str "r") (
            field "boundary" (str "b") (
              field "paths" (arr (cons (str "Makefile") nil))
                (field "validation" (arr (cons (str "v") nil)) end)))))))

abbrev ledger : Items → Fields
ledger entries = field "schema_version" (int (pos 1)) (field "entries" (arr entries) end)

abbrev all_exist : String → Bool
all_exist path = true

one_entry : validate_change_ledger all_exist (ledger (cons ledger_entry nil)) ≡ ok tt
unfolding validate_change_ledger check_entries check_content check_all_paths check_paths is_absolute
    is_text is_int is_blank is_space contains str_eq
one_entry = refl

same_entry_twice :
    validate_change_ledger all_exist (ledger (cons ledger_entry (cons ledger_entry nil)))
    ≡ err bad_identifier
unfolding validate_change_ledger check_entries check_content check_all_paths check_paths is_absolute
    is_text is_int is_blank is_space contains str_eq
same_entry_twice = refl

validate_change_ledger-IsLedger_example : IsLedger all_exist (ledger (cons ledger_entry nil))
validate_change_ledger-IsLedger_example =
    validate_change_ledger-IsLedger all_exist (ledger (cons ledger_entry nil)) one_entry
