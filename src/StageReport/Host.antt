-- ===== src/StageReport/Host.antt =====
-- What stage_report.py asks of the standard library and of the machine.
use my_ad.Prelude.{ℕ, String, Bool, Option, List, Result}
use my_ad.Json.{Value, JsonFault}
use my_ad.StageReport.Fault.{Fault}

abbrev pub Bytes : Type 0
Bytes = List ℕ

-- What stands at a resolved path: no regular file, one that cannot be read, or its content.
pub data Entry : Type 0 where
  absent : Entry
  unreadable : Entry
  regular : Bytes → Entry

abbrev pub Files : Type 0
Files = String → Entry

pub record Host : Type 0 where
  -- `(base / value).resolve()`; none where it raises
  pub resolve : String → String → Option String
  -- `path.parent`
  pub parent : String → String
  -- `os.path.relpath(path, base)`
  pub relpath : String → String → String
  -- `Path.cwd()`
  pub cwd : String
  -- `hashlib.sha256(content).hexdigest()`
  pub sha256 : Bytes → String
  -- `json.loads` of UTF-8 bytes, before the hooks
  pub parse : Bytes → Result JsonFault Value
  -- `json.dumps(value, indent=2, sort_keys=True, allow_nan=False) + "\n"`, encoded; none where it
  -- raises
  pub dump : Value → Option Bytes
  -- whether the directory can be made and the file replaced
  pub writable : String → Bool
  -- `datetime.fromisoformat(text).utcoffset()`: none where it raises, otherwise whether it is set
  pub utcoffset : String → Option Bool
  -- the message of an exception, or a formatted error
  pub message : Fault → String
