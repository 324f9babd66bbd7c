-- ===== src/RuntimeGate/Payload.antt =====
-- check_carla_runtime.py: `_payload`, `validate_image`, and `read_provenance` behind the parser.
use my_ad.Prelude.{
  ℕ, zero, suc, ◌*◌, String, Bool, false, not, ◌&&◌, ◌||◌, [], ◌∷◌, ◌++◌, Result, ok, err, ◌>>=◌,
  ◌>>◌, require, ltb, ◌==◌, length, if◌then◌else◌,
}
use my_ad.Json.{Value, obj, Fields, end, field, get, is_text, is_int}
use my_ad.StageReport.Host.{Bytes}

abbrev pub width : ℕ
width = 320

abbrev pub height : ℕ
height = 240

abbrev pub max_sensor_bytes : ℕ
max_sensor_bytes = 16 * 1024 * 1024

pub data PayloadFault : Type 0 where
  too_large bad_width bad_height wrong_dimensions wrong_size constant_image : PayloadFault

-- `_payload`
unfoldable pub payload : Bytes → Result PayloadFault Bytes
payload raw_data = if ltb max_sensor_bytes (length raw_data) then err too_large else ok raw_data

-- `data[offset::4]`
unfoldable pub every_fourth : ℕ → Bytes → Bytes
every_fourth offset [] = []
every_fourth zero (x ∷ data_) = x ∷ every_fourth 3 data_
every_fourth (suc offset) (x ∷ data_) = every_fourth offset data_

-- `min(channel)` and `max(channel)` of a channel that starts with `x`
unfoldable pub least : ℕ → Bytes → ℕ
least x [] = x
least x (y ∷ rest) = least (if ltb y x then y else x) rest

unfoldable pub greatest : ℕ → Bytes → ℕ
greatest x [] = x
greatest x (y ∷ rest) = greatest (if ltb x y then y else x) rest

-- `min(channel) != max(channel)`. An empty channel, at which Python raises, does not reach it.
unfoldable pub varies : Bytes → Bool
unfolding least greatest
varies [] = false
varies (x ∷ rest) = not (least x rest == greatest x rest)

-- The dict that `validate_image` returns. The digests are those of the joined channels and of the
-- data.
pub record ImageMetrics : Type 0 where
  pub width : ℕ
  pub height : ℕ
  pub bytes : ℕ
  pub rgb : Bytes
  pub bgra : Bytes

-- `validate_image`, for dimensions that are integers
unfoldable pub validate_image : Bytes → ℕ → ℕ → Result PayloadFault ImageMetrics
unfolding every_fourth
validate_image data_ w h = do
  require (ltb 0 w) bad_width
  require (ltb 0 h) bad_height
  require (w == width && h == height) wrong_dimensions
  require (length data_ == w * h * 4) wrong_size
  let blue = every_fourth 0 data_
  let green = every_fourth 1 data_
  let red = every_fourth 2 data_
  require (varies blue || (varies green || varies red)) constant_image
  ok (record {
    width = w;
    height = h;
    bytes = length data_;
    rgb = blue ++ (green ++ red);
    bgra = data_;
  })

pub data ProvenanceFault : Type 0 where
  not_object bad_schema no_sources : ProvenanceFault
  missing_source : String → ProvenanceFault
  empty_field : String → String → ProvenanceFault

-- `isinstance(source.get(field), str) and source[field].strip()`
abbrev pub require_text : String → Fields → String → Result ProvenanceFault (Unit {0})
require_text name source key = require (is_text (get key source)) (empty_field name key)

abbrev pub check_source : String → Value → Result ProvenanceFault Fields
check_source name (obj source) =
    require_text name source "location" >> (require_text name source "revision" >> ok source)
check_source name _ = err (missing_source name)

abbrev pub sources_of : Value → Result ProvenanceFault Fields
sources_of (obj sources) = ok sources
sources_of _ = err no_sources

-- `read_provenance`, from the parsed value on
unfoldable pub read_provenance : Value → Result ProvenanceFault Fields
read_provenance (obj data_) = do
  require (is_int 1 (get "schema_version" data_)) bad_schema
  sources ← sources_of (get "sources" data_)
  carla ← check_source "carla" (get "carla" sources)
  ue ← check_source "ue" (get "ue" sources)
  ok (field "carla" (obj carla) (field "ue" (obj ue) end))
read_provenance _ = err not_object
