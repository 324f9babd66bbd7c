-- ===== src/RuntimeConfig/Reference.antt =====
-- normalize-runtime-config.py: `replace_reference` and `normalize`.
use my_ad.Prelude.{
  ℕ, ◌+◌, String, Bool, Option, none, some, List, [], ◌∷◌, Result, ok, err, ◌>>=◌, ◌>>◌, require,
  str_eq, ◌==◌, if◌then◌else◌,
}
use my_ad.Json.{
  Value, null, bool, int, float, str, arr, obj, constant, Items, nil, cons, Fields, end, field,
}
use my_ad.StageReport.Host.{Bytes, Entry, absent, unreadable, regular, Files}
use my_ad.StageReport.Write.{replace}

-- `OLD_REFERENCE` and `NEW_REFERENCE`
abbrev pub old_reference : String
old_reference =
    "/Game/Carla/Static/Dynamic/Construction/Sm_ConstructionDebrie.Sm_ConstructionDebrie"

abbrev pub new_reference : String
new_reference = "/Game/Carla/Static/Dynamic/Construction/SM_DebrisContainer.SM_DebrisContainer"

unfoldable mutual
  -- `replace_reference`
  pub replace_reference : Value → Value × ℕ
  replace_reference (str s) = if str_eq s old_reference then (str new_reference, 1) else (str s, 0)
  replace_reference (arr items) = (arr (replace_items items).0, (replace_items items).1)
  replace_reference (obj fields) = (obj (replace_fields fields).0, (replace_fields fields).1)
  replace_reference null = (null, 0)
  replace_reference (bool b) = (bool b, 0)
  replace_reference (int n) = (int n, 0)
  replace_reference (float x) = (float x, 0)
  replace_reference (constant name) = (constant name, 0)

  pub replace_items : Items → Items × ℕ
  replace_items nil = (nil, 0)
  replace_items (cons item items) = (
    cons (replace_reference item).0 (replace_items items).0,
    (replace_reference item).1 + (replace_items items).1,
  )

  pub replace_fields : Fields → Fields × ℕ
  replace_fields end = (end, 0)
  replace_fields (field key value fields) = (
    field key (replace_reference value).0 (replace_fields fields).0,
    (replace_reference value).1 + (replace_fields fields).1,
  )

pub data ConfigFault : Type 0 where
  missing_asset : ConfigFault
  missing_config : String → ConfigFault
  os_error : String → ConfigFault
  not_json : String → ConfigFault

-- What the script asks of the machine, for one stage root.
pub record Stage : Type 0 where
  -- `target_asset.is_file()`
  pub has_asset : Bool
  -- `config_root / name`
  pub join : String → String
  -- `json.loads` of the decoded text: the last value of a repeated key stands
  pub parse : Bytes → Option Value
  -- `json.dumps(value, indent=2, ensure_ascii=False) + "\n"`, encoded
  pub dump : Value → Bytes
  pub writable : String → Bool

-- `CONFIG_NAMES`
unfoldable pub config_names : List String
config_names = "PropParameters.json" ∷ "Default.Package.json" ∷ []

-- What the first loop has found: the changes to be written, and the number of references.
pub record Found : Type 0 where
  pub changes : List (String × Value)
  pub total : ℕ

module _ (stage : Stage) where
  abbrev pub read_config : String → Entry → Result ConfigFault Bytes
  read_config path absent = err (missing_config path)
  read_config path unreadable = err (os_error path)
  read_config path (regular text) = ok text

  abbrev pub parsed : String → Bytes → Result ConfigFault Value
  parsed path text = elim (stage.parse text) [ none ↦ err (not_json path) | some v ↦ ok v ]

  abbrev pub with_change : String → Value × ℕ → Found → Found
  with_change path (updated, count) found = record {
    changes = if count == 0 then found.changes else (path, updated) ∷ found.changes;
    total = count + found.total;
  }

  -- the first loop, which writes nothing
  unfoldable pub find_changes : Files → List String → Result ConfigFault Found
  find_changes files [] = ok (record { changes = []; total = 0 })
  find_changes files (name ∷ names) =
      read_config (stage.join name) (files (stage.join name)) >>= λ text.
      parsed (stage.join name) text >>= λ value. find_changes files names >>= λ found.
      ok (with_change (stage.join name) (replace_reference value) found)

  -- the second loop
  unfoldable pub write_changes : Files → List (String × Value) → Result ConfigFault Files
  write_changes files [] = ok files
  write_changes files ((path, updated) ∷ changes) =
      require (stage.writable path) (os_error path)
      >> write_changes (replace files path (stage.dump updated)) changes

  -- `normalize`: the number of references, and the files afterwards
  unfoldable pub normalize : Files → Result ConfigFault (ℕ × Files)
  normalize files =
      require stage.has_asset missing_asset
      >> (find_changes files config_names >>= λ found.
          write_changes files found.changes >>= λ after. ok (found.total, after))
