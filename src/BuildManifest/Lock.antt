-- ===== src/BuildManifest/Lock.antt =====
-- capture_build_manifest.py: `_source_lock_sources` and `_source_lock_drift`, over the lines of
-- source.lock, whose text has no line separator but the newline.
use my_ad.Prelude.{
  ℕ, String, Bool, true, false, not, ◌&&◌, ◌||◌, Option, none, some, List, [], ◌∷◌, reverse, Result,
  ok, err, ◌>>=◌, ◌>>◌, require, codes, length, is_empty, any, all, is_space, is_hex_lower, leb,
  ◌==◌, if◌then◌else◌,
}
use my_ad.Json.{Value, null, str, obj, Fields, get}
use my_ad.PyText.{Text, same, strip, after_prefix, find, is_digit}
use my_ad.BuildManifest.Fault.{
  ManifestFault, bad_commit, repeated_source, no_usable_commits, not_regular,
}

-- the longest start of a text whose characters satisfy the test, and the rest
unfoldable pub span : (ℕ → Bool) → Text → Text × Text
span test [] = ([], [])
span test (c ∷ s) =
    let (word, rest) = span test s in if test c then (c ∷ word, rest) else ([], c ∷ s)

abbrev is_lower : ℕ → Bool
is_lower c = leb b'a' c && leb c b'z' || c == b'_'

-- a nonempty word before a colon
abbrev key_of : (ℕ → Bool) → Text → Option Text
key_of test line =
    let (word, rest) = span test line in
    elim rest [ [] ↦ none | c ∷ _ ↦ if not (is_empty word) && c == b':' then some word else none ]

-- `re.match(r"^[a-z_]+:", line)`
abbrev pub is_top : Text → Bool
is_top line = elim (key_of is_lower line) [ none ↦ false | some _ ↦ true ]

-- `line.startswith("sources:")`
abbrev pub opens_sources : Text → Bool
opens_sources line = elim (after_prefix (codes "sources:") line) [ none ↦ false | some _ ↦ true ]

-- `re.match(r"^  ([a-z_0-9]+):", line)`
abbrev pub source_of : Text → Option Text
source_of line = elim (after_prefix (codes "  ") line) [
  | none ↦ none
  | some rest ↦ key_of (λ c. is_lower c || is_digit c) rest
]

-- `.strip("'\"")`
abbrev is_quote : ℕ → Bool
is_quote c = c == b'\'' || c == b'"'

unfoldable pub strip_quotes : Text → Text
unfolding span
strip_quotes s = reverse (span is_quote (reverse (span is_quote s).1)).1

-- `re.match(r"^    commit: (.+)$", line)`, stripped
abbrev pub commit_of : Text → Option Text
commit_of line = elim (after_prefix (codes "    commit: ") line) [
  | none ↦ none
  | some [] ↦ none
  | some (c ∷ rest) ↦ some (strip_quotes (strip (c ∷ rest)))
]

-- `_LOCK_COMMIT_RE.match(value)`
unfoldable pub is_commit : Text → Bool
is_commit value = length value == 40 && all is_hex_lower value

-- What the loop over the lines keeps.
pub record Reading : Type 0 where
  pub pins : List (Text × Text)
  pub in_sources : Bool
  pub current : Option Text

abbrev pub is_pinned : Text → List (Text × Text) → Bool
is_pinned name pins = elim (find name pins) [ none ↦ false | some _ ↦ true ]

-- the assignment to a key that is not there yet
unfoldable pub pin_source : Text → Text → Reading → Result ManifestFault Reading
pin_source name value reading = do
  require (is_commit value) bad_commit
  require (not (is_pinned name reading.pins)) repeated_source
  ok (record reading { pins = (name, value) ∷ reading.pins })

-- the `if` of the commit lines
abbrev pub read_commit : Text → Reading → Result ManifestFault Reading
read_commit line reading = elim reading.current [
  | none ↦ ok reading
  | some name ↦ elim (commit_of line) [
    | none ↦ ok reading
    | some value ↦ if reading.in_sources then pin_source name value reading else ok reading
  ]
]

-- one line
unfoldable pub read_line : Text → Reading → Result ManifestFault Reading
unfolding span strip_quotes is_commit pin_source after_prefix find
read_line line reading =
    if is_top line
    then ok (record reading { in_sources = opens_sources line; current = none })
    else (elim (source_of line) [
      | none ↦ read_commit line reading
      | some name ↦
          if reading.in_sources
          then ok (record reading { current = some name })
          else read_commit line reading
    ])

unfoldable pub read_lines : List Text → Reading → Result ManifestFault Reading
read_lines [] reading = ok reading
read_lines (line ∷ lines) reading = read_line line reading >>= λ next. read_lines lines next

-- What stands at config/carla/source.lock.
pub data LockFile : Type 0 where
  no_lock : LockFile
  not_a_file : LockFile
  lock_lines : List Text → LockFile

-- `_source_lock_sources`; the pins stand in the order that they were found in, the last one first
unfoldable pub source_lock_sources : LockFile → Result ManifestFault (Option (List (Text × Text)))
unfolding read_lines
source_lock_sources no_lock = ok none
source_lock_sources not_a_file = err not_regular
source_lock_sources (lock_lines lines) =
    read_lines lines (record { pins = []; in_sources = false; current = none }) >>= λ reading.
    ok (some reading.pins)

-- `_LOCK_SOURCE_REPOS`: the name in the lock and that of the repository
abbrev pub lock_source_repos : List (String × String)
lock_source_repos = ("carla", "carla") ∷ ("unreal_engine", "ue") ∷ []

pub data PinState : Type 0 where
  unpinned untracked_repository drifted agrees : PinState

pub record DriftEntry : Type 0 where
  pub lock_source : String
  pub pin : Option Text
  pub actual_head : Value
  pub state : PinState

pub record DriftReport : Type 0 where
  pub lock_present : Bool
  pub pins : List DriftEntry
  pub drifted : List String
  pub uncovered_lock_sources : List Text

abbrev pub member : String → Value → Value
member key (obj fields) = get key fields
member key _ = null

-- `repositories.get(name)["git"]["head"]`, None where one of them is not there
abbrev pub head_of : String → Fields → Value
head_of name repositories = member "head" (member "git" (get name repositories))

-- `pin == actual_head`
abbrev pub is_head : Text → Value → Bool
is_head commit (str s) = same commit (codes s)
is_head commit _ = false

unfoldable pub state_of : Option Text → Value → PinState
state_of none head = unpinned
state_of (some commit) null = untracked_repository
state_of (some commit) head = if is_head commit head then agrees else drifted

abbrev pub is_drifted : PinState → Bool
is_drifted drifted = true
is_drifted _ = false

-- the loop over the repositories
unfoldable pub drift_entries :
    List (Text × Text) → Fields → List (String × String) → List DriftEntry
unfolding state_of find
drift_entries pins repositories [] = []
drift_entries pins repositories ((lock_name, repo_name) ∷ names) =
    let commit = find (codes lock_name) pins in
    let head = head_of repo_name repositories in
    record {
      lock_source = lock_name;
      pin = commit;
      actual_head = head;
      state = state_of commit head;
    }
    ∷ drift_entries pins repositories names

unfoldable pub drifted_names : List DriftEntry → List String
drifted_names [] = []
drifted_names (entry ∷ entries) =
    let rest = drifted_names entries in
    if is_drifted entry.state then entry.lock_source ∷ rest else rest

-- the pinned names that no repository covers; the report has them sorted
unfoldable pub uncovered : List (Text × Text) → List Text
uncovered [] = []
uncovered ((name, _) ∷ pins) =
    let rest = uncovered pins in
    if any (λ p. same (codes p.0) name) lock_source_repos then rest else name ∷ rest

-- `re.search(r"^sources:\s*$", text, re.M)`
abbrev pub is_sources_line : Text → Bool
is_sources_line line = elim (after_prefix (codes "sources:") line) [
  | none ↦ false
  | some rest ↦ all is_space rest
]

-- `_source_lock_drift`
unfoldable pub source_lock_drift : LockFile → Fields → Result ManifestFault DriftReport
unfolding source_lock_sources drift_entries drifted_names uncovered
source_lock_drift lock repositories = source_lock_sources lock >>= λ found. elim found [
  | none ↦
      ok (record { lock_present = false; pins = []; drifted = []; uncovered_lock_sources = [] })
  | some [] ↦
      require (not (any is_sources_line (lines_of lock))) no_usable_commits
      >> ok (record { lock_present = true; pins = []; drifted = []; uncovered_lock_sources = [] })
  | some (p ∷ pins) ↦
      let entries = drift_entries (p ∷ pins) repositories lock_source_repos in
      ok (record {
        lock_present = true;
        pins = entries;
        drifted = drifted_names entries;
        uncovered_lock_sources = uncovered (p ∷ pins);
      })
]
  where
    lines_of : LockFile → List Text
    lines_of (lock_lines lines) = lines
    lines_of _ = []
