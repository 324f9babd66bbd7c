-- ===== src/StageReport/Verified.antt =====
-- What a verified report is, said without the code of stage_report.py: a derivation that names the
-- report's file, its header, its checks, its evidence with the digests, and a derivation for each
-- prerequisite. `Sound` and `Complete` compare it with `_validate_file`.
use my_ad.Prelude.{
  String, ◌≡◌, ◌≢◌, ◌<◌, true, false, Option, some, List, [], ◌∷◌, ◌++◌, All, Among, length,
  is_blank, is_sha256, ok,
}
use my_ad.Prelude.Int.{pos}
use my_ad.Json.{Value, int, str, arr, obj, Items, nil, cons, Fields, end, field, get, keys}
use my_ad.Json.Unique.{IsUnique, IsStrict}
use my_ad.StageReport.Host.{Bytes, regular, Files, Host}
use my_ad.StageReport.Validate.{max_prerequisite_depth}

-- A JSON list of texts.
abbrev pub strings : List String → Items
strings [] = nil
strings (s ∷ ss) = cons (str s) (strings ss)

-- Not empty, and not white space only.
abbrev pub IsText : String → Type 0
IsText s = is_blank s ≡ false

-- The value is a text.
pub record IsTextValue (v : Value) : Type 0 where
  pub text : String
  pub is_str : v ≡ str text
  pub visible : IsText text

-- The argument and the field of the report are the same text.
pub record AreSameText (expected actual : Value) : Type 0 where
  pub text : String
  pub wanted : expected ≡ str text
  pub visible : IsText text
  pub found : actual ≡ str text

module _ (host : Host) where
  -- An ISO time stamp with a time zone.
  pub record IsTimestamp (v : Value) : Type 0 where
    pub text : String
    pub is_str : v ≡ str text
    pub aware : host.utcoffset text ≡ some true

  pub record HasHeader (report : Fields) (stage_id scope : Value) : Type 0 where
    pub schema : get "schema_version" report ≡ int (pos 1)
    pub stage : AreSameText stage_id (get "stage_id" report)
    pub scope_ : AreSameText scope (get "scope" report)
    pub created : IsTimestamp (get "created_at" report)
    pub exit_code : get "exit_code" report ≡ int (pos 0)

-- A nonempty argument list with a named program.
pub record HasCommand (report : Fields) : Type 0 where
  pub program : String
  pub arguments : List String
  pub argv : get "command" report ≡ arr (strings (program ∷ arguments))
  pub visible : IsText program

pub record IsSource (name : String) (v : Value) : Type 0 where
  pub source : Fields
  pub is_obj : v ≡ obj source
  pub visible : IsText name
  pub location : IsTextValue (get "location" source)
  pub revision : IsTextValue (get "revision" source)

abbrev pub AreSources : Fields → Type 0
AreSources end = Unit
AreSources (field name v rest) = IsSource name v × AreSources rest

pub record HasSources (report : Fields) : Type 0 where
  pub name : String
  pub first : Value
  pub rest : Fields
  pub listed : get "sources" report ≡ obj (field name first rest)
  pub each : AreSources (field name first rest)

-- The report requires exactly the checks `names`.
pub record HasRequired (report : Fields) (names : List String) : Type 0 where
  pub some_name : names ≢ []
  pub listed : get "required_checks" report ≡ arr (strings names)
  pub visible : All IsText names
  pub unique : IsUnique names

-- Every entry is one of `names`, and passed.
abbrev pub EachPasses : List String → Fields → Type 0
EachPasses names end = Unit
EachPasses names (field name status rest) =
    Among name names × (status ≡ str "PASS") × EachPasses names rest

pub record HasChecks (report : Fields) (names : List String) : Type 0 where
  pub checks : Fields
  pub is_obj : get "checks" report ≡ obj checks
  pub complete : All (λ name. Among name (keys checks)) names
  pub passed : EachPasses names checks

module _ (host : Host) (files : Files) where
  -- The record names the file `path`, seen from `base`, with the digest `checksum`.
  pub record IsFileRecord (item : Fields) (base path checksum : String) : Type 0 where
    pub location : String
    pub named : get "path" item ≡ str location
    pub visible : IsText location
    pub resolved : host.resolve base location ≡ some path
    pub listed : get "sha256" item ≡ str checksum
    pub well_formed : is_sha256 checksum ≡ true

  -- The file is there, it is not the report itself, and its content has the recorded digest.
  pub record IsIntact (report_path : String) (v : Value) : Type 0 where
    pub item : Fields
    pub is_obj : v ≡ obj item
    pub path : String
    pub checksum : String
    pub identity : IsFileRecord item (host.parent report_path) path checksum
    pub other : path ≢ report_path
    pub content : Bytes
    pub stored : files path ≡ regular content
    pub digest : host.sha256 content ≡ checksum

  abbrev pub AreIntact : String → Fields → Type 0
  AreIntact path end = Unit
  AreIntact path (field name v rest) = IsText name × IsIntact path v × AreIntact path rest

  pub record HasEvidence (path : String) (report : Fields) (names : List String) : Type 0 where
    pub evidence : Fields
    pub is_obj : get "evidence" report ≡ obj evidence
    pub complete : All (λ name. Among name (keys evidence)) names
    pub intact : AreIntact path evidence

  -- Everything but the prerequisites.
  pub record IsComplete (path : String) (report : Fields) (stage_id scope : Value) : Type 0 where
    pub header : HasHeader host report stage_id scope
    pub command : HasCommand report
    pub sources : HasSources report
    pub names : List String
    pub required : HasRequired report names
    pub checks : HasChecks report names
    pub evidence : HasEvidence path report names

  mutual
    -- The report at `path` is a verified PASS of the stage, seen from the reports `ancestors` that
    -- lead to it.
    pub data Verified : List String → String → Value → Value → Option String → Fields → Type 0 where
      verified :
          {ancestors : List String} {path : String} {stage_id scope : Value}
          {checksum : Option String} {report : Fields} (raw : Bytes) (items : Items)
          → ¬ Among path ancestors
          → length ancestors < max_prerequisite_depth
          → files path ≡ regular raw
          → ((c : String) → checksum ≡ some c → host.sha256 raw ≡ c)
          → host.parse raw ≡ ok (obj report)
          → IsStrict (obj report)
          → IsComplete path report stage_id scope
          → get "prerequisites" report ≡ arr items
          → VerifiedAll (ancestors ++ path ∷ []) (host.parent path) [] items
          → get "status" report ≡ str "PASS"
          → get "errors" report ≡ arr nil
          → Verified ancestors path stage_id scope checksum report

    -- Every prerequisite names a stage that no earlier one names, and is verified in its turn.
    pub data VerifiedAll : List String → String → List String → Items → Type 0 where
      done :
          {ancestors : List String} {base : String} {seen : List String}
          → VerifiedAll ancestors base seen nil
      more :
          {ancestors : List String} {base : String} {seen : List String} {item : Fields}
          {rest : Items} {path checksum : String} {report : Fields} (stage scope : String)
          → get "stage_id" item ≡ str stage
          → get "scope" item ≡ str scope
          → IsText stage
          → IsText scope
          → ¬ Among stage seen
          → IsFileRecord item base path checksum
          → Verified ancestors path (str stage) (str scope) (some checksum) report
          → VerifiedAll ancestors base (stage ∷ seen) rest
          → VerifiedAll ancestors base seen (cons (obj item) rest)
