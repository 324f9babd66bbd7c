-- ===== src/TopicSample/Depth.antt =====
-- sample-topic.py: the depth of a summary.
use my_ad.Prelude.{
  ℕ, suc, ◌+◌, ◌-◌, ◌≤◌, String, ◌≡◌, refl, false, Option, none, some, str_eq, contains, leb, ltb,
  if◌then◌else◌, arith, Bool-cases, inl, inr,
}
use my_ad.Json.{
  Value, null, bool, int, float, str, arr, obj, constant, Items, nil, cons, Fields, end, field,
}
use my_ad.TopicSample.Summary.{
  Message, nothing, flag, integer, real, text, buffer, mapping, sequence, message, other, Members,
  done, member, Elements, empty, element, sample_fields, sized, summarize, summarize_members,
  first_of,
}

abbrev max : ℕ → ℕ → ℕ
max a b = if ltb a b then b else a

-- How many objects and lists stand in each other.
abbrev mutual
  pub height : Value → ℕ
  height (arr items) = suc (height_items items)
  height (obj fields) = suc (height_fields fields)
  height null = 0
  height (bool _) = 0
  height (int _) = 0
  height (float _) = 0
  height (str _) = 0
  height (constant _) = 0

  pub height_items : Items → ℕ
  height_items nil = 0
  height_items (cons item items) = max (height item) (height_items items)

  pub height_fields : Fields → ℕ
  height_fields end = 0
  height_fields (field key value fields) = max (height value) (height_fields fields)

max_le : (a b n : ℕ) → a ≤ n → b ≤ n → max a b ≤ n
max_le a b n h k = ground arith

sized_le : (name : String) (len : Option ℕ) → height (sized name len) ≤ 1
sized_le name none = ground arith
sized_le name (some n) = ground arith

-- Without a sample, past the depth limit, a summary has one level.
flat :
    (m : Message) (name : String) (depth : ℕ)
    → contains name sample_fields ≡ false
    → 4 ≤ depth
    → height (summarize m name depth) ≤ 1
unfolding summarize
flat nothing name depth c d = omega arith
flat (flag b) name depth c d = omega arith
flat (integer n) name depth c d = omega arith
flat (real x) name depth c d = omega arith
flat (text s) name depth c d = omega arith
flat (buffer n) name depth c d = ground arith
flat (mapping t members) name depth c d = ground arith
flat (sequence elements) name depth c d = ground arith
flat (message t len members) name depth c d = ground (arith, sized_le t len)
flat (other t len shown) name depth c d = ground (arith, sized_le t len)

no_sample : contains "" sample_fields ≡ false
unfolding contains sample_fields str_eq
no_sample = refl

mutual
  unfolding summarize

  bounded :
      (m : Message) (name : String) (depth : ℕ) → height (summarize m name depth) ≤ 4 - depth + 2
  bounded nothing name depth = omega arith
  bounded (flag b) name depth = omega arith
  bounded (integer n) name depth = omega arith
  bounded (real x) name depth = omega arith
  bounded (text s) name depth = omega arith
  bounded (buffer n) name depth = ground arith
  bounded (mapping t members) name depth = ground (arith, bounded_members members (suc depth))
  bounded (sequence elements) name depth = ground (arith, bounded_first elements depth)
  bounded (message t len members) name depth =
      ground (arith, sized_le t len, bounded_members members (suc depth))
  bounded (other t len shown) name depth = ground (arith, sized_le t len)

  bounded_members :
      (members : Members) (depth : ℕ)
      → height_fields (summarize_members members depth) ≤ 4 - depth + 2
  bounded_members done depth = omega arith
  bounded_members (member name value members) depth =
      max_le (height (summarize value name depth)) (height_fields (summarize_members members depth))
        (4 - depth + 2) (bounded value name depth) (bounded_members members depth)

  bounded_first :
      (elements : Elements) (depth : ℕ)
      → height_fields (first_of elements (suc depth)) ≤ 4 - depth + 1
  bounded_first empty depth = omega arith
  bounded_first (element value elements) depth =
      max_le (height (summarize value "" (suc depth))) 0 (4 - depth + 1)
        (elim (Bool-cases (leb 4 depth)) [
          | inl deep ↦ ground (arith, flat value "" (suc depth) no_sample (ground arith))
          | inr shallow ↦ ground (arith, bounded value "" (suc depth))
        ])
        (omega arith)

-- The summary of any message has at most six objects in each other, however deep the message is.
pub summarize-height : (m : Message) (name : String) → height (summarize m name 0) ≤ 6
summarize-height m name = omega (arith, bounded m name 0)
