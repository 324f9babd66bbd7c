-- ===== src/DriverEntries/Samples.antt =====
-- Tests of the driver-entry analysis on small modules, and the witnesses.
use my_ad.Prelude.{
  none, ℕ, String, ◌+◌, ◌*◌, ◌≡◌, refl, ◌↔◌, true, some, List, [], ◌∷◌, ok, err, ltb→lt, codes,
  is_space,
}
use my_ad.Prelude.Int.{negsuc}
use my_ad.PyText.{after_prefix, Text, partition, field_of, to_int, natural, digits, strip, lstrip}
use my_ad.PyText.Hex.{to_hex, hex_digits}
use my_ad.DriverEntries.Spirv.{
  words_of, bytes_of, until_nul, split_at, entry_of, walk, spirv_entries, magic, short_entry,
  bad_instruction,
}
use my_ad.DriverEntries.Instructions.{IsModule, walk_iff}
use my_ad.DriverEntries.Markers.{
  bad_identity, duplicate_field, missing_attachment, until_end, inner_lines, read_fields, fields,
  decimal, decimal_on, count_parts, has_range, has_attachments, check_subpass, check_subpasses,
  check_complete, RenderPass, check_identity, counts_of, check_parts, check_snapshot,
  render_pass_snapshot,
}
use my_ad.DriverEntries.MarkerLaws.{IsRenderPass, render_pass_snapshot-IsRenderPass}

-- OpNop, then OpEntryPoint of the model 5 named "a"
abbrev two_instructions : List ℕ
two_instructions = 65536 ∷ (5 * 65536 + 15) ∷ 5 ∷ 1 ∷ b'a' ∷ 7 ∷ []

two_walk : walk 6 two_instructions ≡ ok ((5, b'a' ∷ []) ∷ [])
unfolding walk split_at entry_of until_nul bytes_of
two_walk = refl

-- an instruction longer than what is left, and an entry point of three words
cut_short : walk 2 ((3 * 65536) ∷ 0 ∷ []) ≡ err bad_instruction
unfolding walk split_at entry_of
cut_short = refl

three_words : walk 3 ((3 * 65536 + 15) ∷ 0 ∷ 1 ∷ []) ≡ err short_entry
unfolding walk split_at entry_of
three_words = refl

empty_module : spirv_entries (bytes_of (magic ∷ 0 ∷ 0 ∷ 0 ∷ 0 ∷ [])) ≡ ok []
unfolding spirv_entries words_of bytes_of walk
empty_module = refl

walk_iff_example :
    (walk 6 two_instructions ≡ ok ((5, b'a' ∷ []) ∷ []))
    ↔ IsModule two_instructions ((5, b'a' ∷ []) ∷ [])
walk_iff_example = walk_iff 6 two_instructions ((5, b'a' ∷ []) ∷ []) (ltb→lt 5 6 refl)

-- A complete render pass of one attachment and one subpass without references.
abbrev pass_lines : String → List Text
pass_lines attachment =
    codes "schema=1"
    ∷ codes "api=vkCreateRenderPass"
    ∷ codes "handle=0x10"
    ∷ codes "capture_complete=1"
    ∷ codes "attachments=1"
    ∷ codes "subpasses=1"
    ∷ codes "dependencies=0"
    ∷ codes attachment
    ∷ codes "subpass0_flags=0"
    ∷ codes "subpass0_bind_point=0"
    ∷ codes "subpass0_inputs=0"
    ∷ codes "subpass0_colors=1"
    ∷ codes "subpass0_color0=0,2"
    ∷ codes "subpass0_preserves=0"
    ∷ codes "end=1"
    ∷ []

abbrev wanted : Text
wanted = codes "0x0010"

abbrev one_pass : RenderPass
one_pass = record { is_complete = true; attachments = 1; subpasses = 1; dependencies = 0 }

pass_accepted :
    render_pass_snapshot wanted (pass_lines "attachment0=0,1,2,3,4,5,6,7,8") ≡ ok one_pass
unfolding render_pass_snapshot check_snapshot check_identity counts_of check_parts check_complete
    check_subpasses check_subpass has_range has_attachments inner_lines until_end read_fields
    partition field_of to_int natural digits strip lstrip is_space decimal_on count_parts to_hex
    hex_digits after_prefix
pass_accepted = refl

attachment_short :
    render_pass_snapshot wanted (pass_lines "attachment0=0,1,2") ≡ err missing_attachment
unfolding render_pass_snapshot check_snapshot check_identity counts_of check_parts check_complete
    check_subpasses check_subpass has_range has_attachments inner_lines until_end read_fields
    partition field_of to_int natural digits strip lstrip is_space decimal_on count_parts to_hex
    hex_digits after_prefix
attachment_short = refl

marker_twice :
    fields 100 (codes "schema=1" ∷ codes "phase=enter" ∷ codes "phase=enter" ∷ codes "end=1" ∷ [])
    ≡ err duplicate_field
unfolding fields inner_lines until_end read_fields partition field_of
marker_twice = refl

twelve : decimal 12 ≡ codes "12"
unfolding decimal_on
twelve = refl

render_pass_snapshot-IsRenderPass_example :
    IsRenderPass (pass_lines "attachment0=0,1,2,3,4,5,6,7,8") one_pass
render_pass_snapshot-IsRenderPass_example =
    render_pass_snapshot-IsRenderPass wanted (pass_lines "attachment0=0,1,2,3,4,5,6,7,8") one_pass
      pass_accepted

other_handle :
    render_pass_snapshot (codes "0x11") (pass_lines "attachment0=0,1,2,3,4,5,6,7,8")
    ≡ err bad_identity
unfolding render_pass_snapshot check_snapshot check_identity inner_lines until_end read_fields
    partition field_of strip lstrip is_space to_hex hex_digits after_prefix
other_handle = refl

hex_words : (to_hex (codes " -0x_1f ") ≡ some (negsuc 30)) × (to_hex (codes "0x") ≡ none)
unfolding to_hex hex_digits after_prefix strip lstrip is_space
hex_words = (refl, refl)
