-- ===== src/Tests/OfflineRuns.antt =====
-- `validate_dunia_file` of src/patches/offline.rs on a file with all signatures.
use fc2_systemdetection.Patches.Signatures
use fc2_systemdetection.Scan.Pattern
use fc2_systemdetection.Gear.Cpu.{zero_bytes}
use fc2_systemdetection.Memory.Bytes.{poke}
use fc2_systemdetection.Memory.Checked.{
  classify_bytes, is_readable_protection, is_refused, next_region, query_readable, read_bytes,
  validate_bytes, validate_lengths, validate_readable_range, verify_write,
  writable_protection_for_single_region, write_checked, write_classified, write_region,
  write_unprotected,
}
use fc2_systemdetection.Memory.Walk.{walk}
use fc2_systemdetection.Offline.Copy.{validate_dunia_file-frame}
use fc2_systemdetection.Offline.Known.{
  DuniaFileValidation, ValidatedPatch, ValidationError, applied_to_copy, known_rvas,
  validate_known_rvas,
}
use fc2_systemdetection.Offline.Prepare.{describe_writes, make_plans, prepare_plans, push_planned}
use fc2_systemdetection.Offline.Tried.{
  IsValidation, validate_dunia_file-ok, validate_image-planner_failed,
}
use fc2_systemdetection.Offline.Validate.{
  apply_to_copy, reapply_to_copy, try_plans, validate_dunia_file, validate_image,
}
use fc2_systemdetection.Patches.Build.{from_file_size, unknown}
use fc2_systemdetection.Patches.Error.{signature_not_found}
use fc2_systemdetection.Patches.Plan.{apply, apply_write, apply_writes, new, single, validated}
use fc2_systemdetection.Patches.Recipes.{
  plan_devmode_always_on, plan_found_no_blinking, plan_jackal_tapes, plan_machetes,
  plan_no_blinking_items, plan_predecessor_by_signature, plan_predecessor_tapes,
}
use fc2_systemdetection.Patches.Target.{
  find_signature_target, judge_match, judge_matches, select_target,
}
use fc2_systemdetection.Prelude.{
  List, Member, String, [], arith, err, inl, inr, length, none, ok, ok-injective, refl, some, ℕ,
  ◌++◌, ◌∷◌, ◌≡◌,
}
use fc2_systemdetection.Scan.Error.{code_scope}
use fc2_systemdetection.Scan.FileImage.{from_pe_file, loaded_sections, map_section, map_sections}
use fc2_systemdetection.Scan.Image.{
  contains_relative_target, holds_target, scan, scan_sections, section_matches,
}
use fc2_systemdetection.Scan.Pattern.{
  Pattern, find_offsets, hex_digit, matches, matching_offsets, parse_part, parse_parts, u8_digits,
  u8_from_hex, windows,
}
use fc2_systemdetection.Scan.Range.{Portex, ReadFault}
use fc2_systemdetection.Scan.Sections.{
  PeHeaders, SectionHeader, check_header, check_headers, check_overlap, check_overlaps, is_in_scope,
  validate_pe_sections,
}
use fc2_systemdetection.Tests.Fixture.{
  calm, calm_os, headers, image, portex, rdata_header, text_header,
}
use fc2_systemdetection.Text.{codes, split_whitespace}

-- `jackal_tapes`, `devmode_always_on`, `predecessor_tapes` and `machetes`, one behind the other.
abbrev patched_code : List ℕ
patched_code =
    (0x80 ∷ 0x7E ∷ 0x74 ∷ 0x00 ∷ 0x75 ∷ 0x0A ∷ 0x3B ∷ 0xCA ∷ 0x75 ∷ [])
    ++ (0x80 ∷ 0x79 ∷ 0x01 ∷ 0x00 ∷ 0x8B ∷ 0x54 ∷ 0x24 ∷ 0x08 ∷ 0x75 ∷ [])
    ++ (0x8B ∷ 0x49 ∷ 0x0C ∷ 0x85 ∷ 0xC9 ∷ 0x74 ∷ 0x16 ∷ 0x8B ∷ 0x44 ∷ 0x24 ∷ [])
    ++ (0x83 ∷ 0xEC ∷ 0x10 ∷ 0x53 ∷ 0x8D ∷ 0x44 ∷ 0x24 ∷ 0x08 ∷ 0x50 ∷ 0x68 ∷ [])
    ++ zero_bytes 95
    ++ (0x8A ∷ 0xC3 ∷ [])

-- The three names of `no_blinking_items`.
abbrev patched_data : List ℕ
patched_data =
    codes "Mesh_Highlight"
    ++ codes "archBlink"
    ++ codes "gadgets.ObjectiveIcons.SaveDisk"
    ++ (0 ∷ [])

abbrev whole_file : List ℕ
whole_file = 0x4D ∷ 0x5A ∷ patched_code ++ patched_data

abbrev whole_text : SectionHeader
whole_text = record text_header {
  virtual_address = 0x10;
  virtual_size = 135;
  size_of_raw_data = 135;
  pointer_to_raw_data = 2;
}

abbrev whole_rdata : SectionHeader
whole_rdata = record rdata_header {
  virtual_address = 0xA0;
  virtual_size = 55;
  size_of_raw_data = 55;
  pointer_to_raw_data = 137;
}

abbrev whole_headers : PeHeaders
whole_headers = record headers { section_headers = whole_text ∷ whole_rdata ∷ [] }

abbrev whole_portex : Portex ReadFault
whole_portex = record portex { from_slice = λ file. ok whole_headers }

lengths_test : (length patched_code ≡ 135) × (length patched_data ≡ 55)
lengths_test = (refl, refl)

-- A validated patch with one write.
abbrev one_patch : String → ℕ → List ℕ → List ℕ → ValidatedPatch
one_patch name rva original replacement = record {
  name = name;
  rvas = rva ∷ [];
  original_bytes = original ∷ [];
  replacement_bytes = replacement ∷ [];
  state = applied_to_copy;
}

abbrev whole_validation : DuniaFileValidation
whole_validation = record {
  build = unknown (some 192);
  file_size = 192;
  image_size = 0x100;
  patches =
      one_patch "jackal_tapes" 0x15 (0x0A ∷ []) (0x14 ∷ [])
      ∷ one_patch "devmode_always_on" 0x21 (0x75 ∷ []) (0xEB ∷ [])
      ∷ one_patch "predecessor_tapes" 0x27 (0x74 ∷ 0x16 ∷ []) (0xEB ∷ 0x0E ∷ [])
      ∷ one_patch "machetes" 0x95 (0x8A ∷ 0xC3 ∷ []) (0xB0 ∷ 0x01 ∷ [])
      ∷ record {
        name = "no_blinking_items";
        rvas = 0xA4 ∷ 0xB6 ∷ 0xD6 ∷ [];
        original_bytes = (b'_' ∷ []) ∷ (b'k' ∷ []) ∷ (0 ∷ []) ∷ [];
        replacement_bytes = (b'.' ∷ []) ∷ (b'.' ∷ []) ∷ (b'.' ∷ []) ∷ [];
        state = applied_to_copy;
      }
      ∷ [];
}

whole_runs : (validate_dunia_file whole_portex calm 0x5000 (ok whole_file)).0 ≡ ok whole_validation
unfolding validate_dunia_file validate_image try_plans apply_to_copy reapply_to_copy prepare_plans
    push_planned describe_writes make_plans validate_known_rvas known_rvas from_pe_file map_sections
    map_section loaded_sections validate_pe_sections check_headers check_header check_overlaps
    check_overlap plan_jackal_tapes plan_devmode_always_on plan_predecessor_tapes
    plan_predecessor_by_signature plan_machetes plan_no_blinking_items plan_found_no_blinking
    find_signature_target judge_matches judge_match select_target single new validated
    contains_relative_target holds_target scan scan_sections section_matches is_in_scope
    Pattern.parse parse_parts parse_part u8_from_hex u8_digits hex_digit split_whitespace
    Pattern.find_offsets windows matching_offsets matches validate_bytes apply apply_writes
    apply_write write_checked write_classified write_region write_unprotected verify_write
    writable_protection_for_single_region validate_lengths classify_bytes read_bytes
    validate_readable_range walk next_region query_readable is_refused is_readable_protection poke
    from_file_size
whole_runs = refl

validate_dunia_file-ok_example :
    IsValidation whole_portex calm
      (validate_dunia_file whole_portex calm 0x5000 (ok whole_file)).1
      0x5000
      whole_file
      whole_validation
validate_dunia_file-ok_example =
    validate_dunia_file-ok whole_portex calm 0x5000 whole_file whole_validation whole_runs

validate_dunia_file-frame_example :
    (validate_dunia_file whole_portex calm 0x5000 (ok whole_file)).1.bytes 0x1046 ≡ 0x0A
validate_dunia_file-frame_example =
    validate_dunia_file-frame whole_portex calm 0x5000 (ok whole_file) 0x1046
      (λ file headers parsed. rw (← ok-injective parsed) (omega arith))
      (λ file mapped read made inside. absurd (omega (arith, inside.0)))

devmode_missing :
    Member
      ("devmode_always_on", err (signature_not_found Signatures.devmode_always_on code_scope))
      (make_plans calm image (unknown none))
unfolding make_plans plan_jackal_tapes plan_devmode_always_on plan_predecessor_tapes
    plan_predecessor_by_signature plan_machetes plan_no_blinking_items plan_found_no_blinking
    find_signature_target judge_matches judge_match select_target single new validated
    contains_relative_target holds_target scan scan_sections section_matches is_in_scope
    Pattern.parse parse_parts parse_part u8_from_hex u8_digits hex_digit split_whitespace
    Pattern.find_offsets windows matching_offsets matches validate_bytes apply apply_writes
    apply_write write_checked write_classified write_region write_unprotected verify_write
    writable_protection_for_single_region validate_lengths classify_bytes read_bytes
    validate_readable_range walk next_region query_readable is_refused is_readable_protection poke
    from_file_size
devmode_missing = inr (inl refl)

validate_image-planner_failed_example :
    (e : ValidationError) × (validate_image calm image (unknown none) ≡ (err e, calm))
validate_image-planner_failed_example =
    validate_image-planner_failed calm image (unknown none) "devmode_always_on"
      (signature_not_found Signatures.devmode_always_on code_scope) devmode_missing
