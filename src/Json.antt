-- ===== src/Json.antt =====
-- The values that `json.loads` builds, and the two hooks with which the scripts make it strict:
-- scripts/carla/stage_report.py, `_unique_object` and `_invalid_constant`. A tree that the parser
-- has read keeps repeated keys and the constants NaN and Infinity; `build` applies the hooks.
pub mod Unique
mod Samples
use my_ad.Prelude.{
  ℕ, String, Bool, true, false, not, ◌&&◌, List, [], ◌∷◌, Result, ok, err, ◌>>=◌, ◌==◌, str_eq,
  contains, is_blank, if◌then◌else◌,
}
use my_ad.Prelude.Int.{ℤ, pos, negsuc}

mutual
  -- A `float` is its IEEE 754 bit pattern, which no check here reads.
  pub data Value : Type 0 where
    null : Value
    bool : Bool → Value
    int : ℤ → Value
    float : ℕ → Value
    str : String → Value
    arr : Items → Value
    obj : Fields → Value
    constant : String → Value

  pub data Items : Type 0 where
    nil : Items
    cons : Value → Items → Items

  pub data Fields : Type 0 where
    end : Fields
    field : String → Value → Fields → Fields

-- `fields.get(key)`: None for a missing key
abbrev pub get : String → Fields → Value
get k end = null
get k (field j v fs) = if str_eq k j then v else get k fs

abbrev pub keys : Fields → List String
keys end = []
keys (field k v fs) = k ∷ keys fs

-- `isinstance(value, str) and bool(value.strip())`
unfoldable pub is_text : Value → Bool
is_text (str s) = not (is_blank s)
is_text _ = false

-- `type(value) is int and value == n`
unfoldable pub is_int : ℕ → Value → Bool
is_int n (int (pos m)) = m == n
is_int n _ = false

-- `value == text` for a text
unfoldable pub is_str : String → Value → Bool
is_str s (str t) = str_eq s t
is_str s _ = false

unfoldable pub is_string : Value → Bool
is_string (str t) = true
is_string _ = false

pub data JsonFault : Type 0 where
  syntax : JsonFault
  duplicate_key : String → JsonFault
  invalid_constant : String → JsonFault

-- The loop of the object hook. `result` holds the keys that are in the dict already.
unfoldable pub unique_object : List String → Fields → Result JsonFault Fields
unique_object result end = ok end
unique_object result (field key value pairs) =
    if contains key result
    then err (duplicate_key key)
    else (do rest ← unique_object (key ∷ result) pairs; ok (field key value rest))

-- The hooks are called bottom up, in the order of the text.
unfoldable mutual
  unfolding unique_object

  pub build : Value → Result JsonFault Value
  build (arr xs) = build_items xs >>= λ ys. ok (arr ys)
  build (obj fs) = build_fields fs >>= λ gs. unique_object [] gs >>= λ hs. ok (obj hs)
  build (constant name) = err (invalid_constant name)
  build null = ok null
  build (bool b) = ok (bool b)
  build (int n) = ok (int n)
  build (float x) = ok (float x)
  build (str s) = ok (str s)

  pub build_items : Items → Result JsonFault Items
  build_items nil = ok nil
  build_items (cons x xs) = build x >>= λ y. build_items xs >>= λ ys. ok (cons y ys)

  pub build_fields : Fields → Result JsonFault Fields
  build_fields end = ok end
  build_fields (field k v fs) = build v >>= λ w. build_fields fs >>= λ gs. ok (field k w gs)
