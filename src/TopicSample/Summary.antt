-- ===== src/TopicSample/Summary.antt =====
-- sample-topic.py: `summarize_value`.
use my_ad.Prelude.{
  ℕ, suc, String, Bool, Option, none, some, List, [], ◌∷◌, str_eq, contains, leb, if◌then◌else◌,
}
use my_ad.Prelude.Int.{ℤ, pos}
use my_ad.Json.{Value, null, bool, int, float, str, obj, Fields, end, field}

mutual
  -- What the summary tells apart: None and the plain values, bytes by their length, mappings and
  -- messages with the name of their type, sequences, and everything else by its type, its `len` if
  -- it has one, and its `str`.
  pub data Message : Type 0 where
    nothing : Message
    flag : Bool → Message
    integer : ℤ → Message
    real : ℕ → Message
    text : String → Message
    buffer : ℕ → Message
    mapping : String → Members → Message
    sequence : Elements → Message
    message : String → Option ℕ → Members → Message
    other : String → Option ℕ → String → Message

  pub data Members : Type 0 where
    done : Members
    member : String → Message → Members → Members

  pub data Elements : Type 0 where
    empty : Elements
    element : Message → Elements → Elements

abbrev pub count_members : Members → ℕ
count_members done = 0
count_members (member name value members) = suc (count_members members)

abbrev pub count_elements : Elements → ℕ
count_elements empty = 0
count_elements (element value elements) = suc (count_elements elements)

-- `SEQUENCE_SAMPLE_FIELDS`
unfoldable pub sample_fields : List String
sample_fields = "objects" ∷ "points" ∷ "signals" ∷ "transforms" ∷ []

abbrev pub with_length : ℕ → Value
with_length n = obj (field "length" (int (pos n)) end)

abbrev pub with_type : String → Value
with_type name = obj (field "type" (str name) end)

-- `{"length": len(value)}`, or the type where `len` raises
abbrev pub sized : String → Option ℕ → Value
sized name none = with_type name
sized name (some n) = with_length n

unfoldable mutual
  -- `summarize_value`
  pub summarize : Message → String → ℕ → Value
  summarize nothing name depth = null
  summarize (flag b) name depth = bool b
  summarize (integer n) name depth = int n
  summarize (real x) name depth = float x
  summarize (text s) name depth = str s
  summarize (buffer n) name depth = with_length n
  summarize (mapping type_name members) name depth =
      if str_eq name "data"
      then with_length (count_members members)
      else (if leb 4 depth
          then obj
              (field "type" (str type_name) (field "count" (int (pos (count_members members))) end))
          else obj (summarize_members members (suc depth)))
  summarize (sequence elements) name depth =
      if str_eq name "data"
      then with_length (count_elements elements)
      else obj (
          field "count" (int (pos (count_elements elements)))
            (if contains name sample_fields then first_of elements (suc depth) else end))
  summarize (message type_name len members) name depth =
      if str_eq name "data"
      then sized type_name len
      else (if leb 4 depth
          then with_type type_name
          else obj (summarize_members members (suc depth)))
  summarize (other type_name len shown) name depth =
      if str_eq name "data" then sized type_name len else str shown

  pub summarize_members : Members → ℕ → Fields
  summarize_members done depth = end
  summarize_members (member name value members) depth =
      field name (summarize value name depth) (summarize_members members depth)

  -- `summary["first"]`, of a sequence that is not empty
  pub first_of : Elements → ℕ → Fields
  first_of empty depth = end
  first_of (element value elements) depth = field "first" (summarize value "" depth) end
