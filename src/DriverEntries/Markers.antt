-- ===== src/DriverEntries/Markers.antt =====
-- analyze_vulkan_driver_entries.py: `fields` and `render_pass_snapshot`, over the lines of the files.
use my_ad.Prelude.{
  ℕ, zero, suc, ◌+◌, ◌*◌, ◌/◌, ◌%◌, String, Bool, true, false, not, ◌&&◌, ◌||◌, Option, none, some,
  List, [], ◌∷◌, ◌++◌, Result, ok, err, ◌>>=◌, ◌>>◌, require, codes, leb, ltb, ◌==◌, if◌then◌else◌,
}
use my_ad.Prelude.Int.{ℤ, pos, negsuc}
use my_ad.PyText.{Text, same, partition, Dict, field_of, to_int}
use my_ad.PyText.Hex.{to_hex}

pub data MarkerFault : Type 0 where
  oversized partial duplicate_field not_entry : MarkerFault
  bad_path missing_snapshot bad_field bad_identity bad_bounds : MarkerFault
  missing_attachment missing_subpass missing_references missing_resolve missing_depth
        missing_dependency :
      MarkerFault
  -- the ValueError of `int`, and a KeyError
  not_number no_key : MarkerFault

abbrev pub has : Text → Dict → Bool
has key dict = elim (field_of key dict) [ none ↦ false | some _ ↦ true ]

-- `fields.get(key) == value`
abbrev pub says : Text → String → Dict → Bool
says key value dict = elim (field_of key dict) [ none ↦ false | some v ↦ same v (codes value) ]

-- `lines[1:-1]` of lines whose first is "schema=1" and whose last is "end=1"
unfoldable pub until_end : List Text → Option (List Text)
until_end [] = none
until_end (line ∷ []) = if same line (codes "end=1") then some [] else none
until_end (line ∷ next ∷ lines) = elim (until_end (next ∷ lines)) [
  | none ↦ none
  | some inner ↦ some (line ∷ inner)
]

unfoldable pub inner_lines : List Text → Option (List Text)
unfolding until_end
inner_lines [] = none
inner_lines (first ∷ lines) = if same first (codes "schema=1") then until_end lines else none

-- the loops over the lines: a line without a separator is passed over in a marker and refused in a
-- render pass, and a repeated key is refused in both
unfoldable pub read_fields : Bool → Dict → List Text → Result MarkerFault Dict
read_fields strict values [] = ok values
read_fields strict values (line ∷ lines) = elim (partition b'=' line) [
  | none ↦ if strict then err bad_field else read_fields strict values lines
  | some (key, value) ↦
      if has key values
      then err (if strict then bad_field else duplicate_field)
      else read_fields strict ((key, value) ∷ values) lines
]

-- `fields`, of the size and the lines of a marker
unfoldable pub fields : ℕ → List Text → Result MarkerFault Dict
unfolding inner_lines read_fields
fields size lines = require (leb size (256 * 1024)) oversized >> (elim (inner_lines lines) [
  | none ↦ err partial
  | some inner ↦ read_fields false [] inner >>= λ values.
      require (says (codes "phase") "enter" values) not_entry >> ok values
])

-- decimal digits of a number, as an f-string writes them; the fuel is the number itself
abbrev pub one_digit : ℕ → ℕ
one_digit n = b'0' + n % 10

unfoldable pub decimal_on : ℕ → ℕ → Text
decimal_on zero n = one_digit n ∷ []
decimal_on (suc fuel) n =
    let higher = decimal_on fuel (n / 10) in
    if ltb n 10 then one_digit n ∷ [] else higher ++ one_digit n ∷ []

abbrev pub decimal : ℕ → Text
decimal n = decimal_on n n

-- `text.split(",")` has as many parts as asked for
unfoldable pub count_parts : Text → ℕ
count_parts [] = 1
count_parts (c ∷ s) = let n = count_parts s in if c == b',' then suc n else n

-- `int(fields.get(key, default))` with a default that is not in the bounds or is 0
abbrev pub number_or : ℤ → Text → Dict → Result MarkerFault ℤ
number_or default key dict = elim (field_of key dict) [
  | none ↦ ok default
  | some text ↦ elim (to_int text) [ none ↦ err not_number | some n ↦ ok n ]
]

-- a number from the first bound to the second
abbrev pub bounded : MarkerFault → ℕ → ℕ → ℤ → Result MarkerFault ℕ
bounded fault low high (pos n) = require (leb low n && leb n high) fault >> ok n
bounded fault low high (negsuc n) = err fault

-- `any(f"{prefix}{item}" not in fields for item in range(count))` is false
unfoldable pub has_range : Text → Dict → ℕ → Bool
has_range prefix dict zero = true
has_range prefix dict (suc n) = has (prefix ++ decimal n) dict && has_range prefix dict n

-- `len(fields.get(f"attachment{index}", "").split(",")) == 9`
abbrev pub is_attachment : Dict → ℕ → Bool
is_attachment dict index = elim (field_of (codes "attachment" ++ decimal index) dict) [
  | none ↦ false
  | some text ↦ count_parts text == 9
]

unfoldable pub has_attachments : Dict → ℕ → Bool
has_attachments dict zero = true
has_attachments dict (suc n) = is_attachment dict n && has_attachments dict n

-- the body of the loop over the kinds of references
abbrev pub check_kind : Dict → Text → String × String → Result MarkerFault (Unit {0})
check_kind dict prefix (kind, suffix) = number_or (negsuc 0) (prefix ++ codes kind) dict >>= λ n.
    bounded missing_references 0 64 n >>= λ count.
    require (has_range (prefix ++ codes suffix) dict count) missing_references

-- `int(fields[key])` of a key that must be there
abbrev pub number_at : Text → Dict → Result MarkerFault ℤ
number_at key dict = elim (field_of key dict) [
  | none ↦ err no_key
  | some text ↦ elim (to_int text) [ none ↦ err not_number | some n ↦ ok n ]
]

abbrev pub range_of : ℤ → ℕ
range_of (pos n) = n
range_of (negsuc n) = 0

abbrev pub check_resolves : Dict → Text → Result MarkerFault (Unit {0})
check_resolves dict prefix =
    if says (prefix ++ codes "_resolves") "1" dict
    then (number_at (prefix ++ codes "_colors") dict >>= λ n.
        require (has_range (prefix ++ codes "_resolve") dict (range_of n)) missing_resolve)
    else ok tt

-- the body of the loop over the subpasses
unfoldable pub check_subpass : Dict → Text → Result MarkerFault (Unit {0})
unfolding has_range
check_subpass dict prefix = do
  require (has (prefix ++ codes "_flags") dict && has (prefix ++ codes "_bind_point") dict)
      missing_subpass
  check_kind dict prefix ("_inputs", "_input")
  check_kind dict prefix ("_colors", "_color")
  check_kind dict prefix ("_preserves", "_preserve")
  check_resolves dict prefix
  require
      (not (says (prefix ++ codes "_depth") "1" dict) || has (prefix ++ codes "_depth_ref") dict)
      missing_depth

-- `range(n)` from an index on
unfoldable pub check_subpasses : Dict → ℕ → ℕ → Result MarkerFault (Unit {0})
unfolding check_subpass
check_subpasses dict index zero = ok tt
check_subpasses dict index (suc n) =
    check_subpass dict (codes "subpass" ++ decimal index) >> check_subpasses dict (suc index) n

pub record RenderPass : Type 0 where
  pub is_complete : Bool
  pub attachments : ℕ
  pub subpasses : ℕ
  pub dependencies : ℕ

unfoldable pub check_complete : Dict → ℕ → ℕ → ℕ → Result MarkerFault (Unit {0})
unfolding has_attachments check_subpasses has_range
check_complete dict attachments subpasses dependencies = do
  require (has_attachments dict attachments) missing_attachment
  check_subpasses dict 0 subpasses
  require (has_range (codes "dependency") dict dependencies) missing_dependency

-- `int(text, 16)`
abbrev hex_of : Text → Result MarkerFault ℤ
hex_of text = elim (to_hex text) [ none ↦ err not_number | some n ↦ ok n ]

abbrev equal_ℤ : ℤ → ℤ → Bool
equal_ℤ (pos m) (pos n) = m == n
equal_ℤ (negsuc m) (negsuc n) = m == n
equal_ℤ _ _ = false

abbrev handle_of : Dict → Text
handle_of dict = elim (field_of (codes "handle") dict) [ none ↦ codes "0" | some text ↦ text ]

-- the test of the identity
unfoldable pub check_identity : Text → Dict → Result MarkerFault (Unit {0})
unfolding to_hex
check_identity handle dict = do
  require
      (says (codes "api") "vkCreateRenderPass" dict
        || says (codes "api") "vkCreateRenderPass2KHR" dict)
      bad_identity
  recorded ← hex_of (handle_of dict)
  wanted ← hex_of handle
  require (equal_ℤ recorded wanted) bad_identity
  require (says (codes "capture_complete") "1" dict || says (codes "capture_complete") "0" dict)
      bad_identity

-- the three numbers and their bounds
unfoldable pub counts_of : Dict → Result MarkerFault RenderPass
counts_of dict = do
  a ← number_or (negsuc 0) (codes "attachments") dict
  s ← number_or (negsuc 0) (codes "subpasses") dict
  d ← number_or (negsuc 0) (codes "dependencies") dict
  attachments ← bounded bad_bounds 0 64 a
  subpasses ← bounded bad_bounds 1 8 s
  dependencies ← bounded bad_bounds 0 64 d
  ok (record {
    is_complete = says (codes "capture_complete") "1" dict;
    attachments = attachments;
    subpasses = subpasses;
    dependencies = dependencies;
  })

-- the block for complete snapshots
unfoldable pub check_parts : Dict → RenderPass → Result MarkerFault (Unit {0})
unfolding check_complete
check_parts dict pass =
    if pass.is_complete
    then check_complete dict pass.attachments pass.subpasses pass.dependencies
    else ok tt

-- the lines of a file, parsed and checked
unfoldable pub check_snapshot : Text → Dict → Result MarkerFault RenderPass
unfolding check_identity counts_of check_parts
check_snapshot handle dict = do
  check_identity handle dict
  pass ← counts_of dict
  check_parts dict pass
  ok pass

-- `render_pass_snapshot`, of the lines of a file at an allowed path
unfoldable pub render_pass_snapshot : Text → List Text → Result MarkerFault RenderPass
unfolding inner_lines read_fields check_snapshot
render_pass_snapshot handle lines = elim (inner_lines lines) [
  | none ↦ err partial
  | some inner ↦ read_fields true [] inner >>= λ dict. check_snapshot handle dict
]
