-- ===== src/Tests/ScanRuns.antt =====
-- The scanner of src/patches/sigscan.rs on the module of Fixture.
use fc2_systemdetection.Scan.Pattern
use fc2_systemdetection.Prelude.{
  Member, [], arith, err, false, map, none, ok, refl, some, true, ◌+◌, ◌↔◌, ◌∷◌, ◌≡◌,
}
use fc2_systemdetection.Scan.Complete.{scan_iff}
use fc2_systemdetection.Scan.Error.{
  address_outside_scope, code_scope, invalid_pattern, invalid_pe, read_only_data, sections_overlap,
  size_of_image_differs,
}
use fc2_systemdetection.Scan.Find.{OccursAt, find_offsets_iff}
use fc2_systemdetection.Scan.Image.{
  address_from_rva, contains_relative_target, from_module, holds_range, holds_target, load_sections,
  read_image, scan, scan_sections, section_matches,
}
use fc2_systemdetection.Scan.Layout.{IsAcceptable, validate_pe_sections_iff}
use fc2_systemdetection.Scan.Pattern.{
  Pattern, find_offsets, hex_digit, matches, matching_offsets, parse_part, parse_parts, u8_digits,
  u8_from_hex, windows,
}
use fc2_systemdetection.Scan.Range.{
  next_region, read_at, validate_readable_range, validate_region, walk_regions,
}
use fc2_systemdetection.Scan.Search.{
  IsMatch, RvaInside, TargetInside, address_from_rva-inside, contains_relative_target-inside,
}
use fc2_systemdetection.Scan.Sections.{
  check_header, check_headers, check_overlap, check_overlaps, is_in_scope, to_section,
  validate_pe_sections,
}
use fc2_systemdetection.Scan.Snapshot.{IsSnapshot, from_module-IsSnapshot}
use fc2_systemdetection.Tests.Fixture.{
  calm, calm_os, headers, image, portex, rdata_header, text_header,
}
use fc2_systemdetection.Text.{codes, split_whitespace}

abbrev demo_pattern : Pattern.Pattern
demo_pattern = record { bytes = some 0xAA ∷ none ∷ some 0xAA ∷ [] }

-- The test `finds_overlapping_and_boundary_matches` of sigscan.rs, and texts that are no pattern.
pattern_runs :
    (Pattern.parse (codes "AA ?? AA") ≡ ok demo_pattern)
    × (Pattern.find_offsets demo_pattern (0xAA ∷ 0xAA ∷ 0xAA ∷ 0xBB ∷ 0xAA ∷ []) ≡ 0 ∷ 2 ∷ [])
    × (Pattern.parse [] ≡ err (invalid_pattern []))
    × (Pattern.parse (codes "1G") ≡ err (invalid_pattern (codes "1G")))
    × (Pattern.parse (codes "100") ≡ err (invalid_pattern (codes "100")))
unfolding Pattern.parse parse_parts parse_part u8_from_hex u8_digits hex_digit split_whitespace
    Pattern.find_offsets windows matching_offsets matches
pattern_runs = (refl, refl, refl, refl, refl)

section_runs :
    (validate_pe_sections headers 0x100
      ≡ ok (to_section text_header ∷ to_section rdata_header ∷ []))
    × (validate_pe_sections headers 0x200 ≡ err (invalid_pe (size_of_image_differs 0x100 0x200)))
    × (validate_pe_sections
          (record headers { section_headers = text_header ∷ text_header ∷ [] })
          0x100
        ≡ err (invalid_pe (sections_overlap ".text" ".text")))
unfolding validate_pe_sections check_headers check_header check_overlaps check_overlap
section_runs = (refl, refl, refl)

image_runs : from_module portex calm (ok (0x1000, 0x100)) ≡ ok image
unfolding from_module read_image load_sections read_at validate_pe_sections check_headers
    check_header check_overlaps check_overlap validate_readable_range next_region validate_region
    walk_regions
image_runs = refl

abbrev code_pattern : Pattern.Pattern
code_pattern = record { bytes = some 0x75 ∷ none ∷ some 0x3B ∷ [] }

search_runs :
    (scan image code_pattern code_scope ≡ 0x1045 ∷ [])
    × (scan image code_pattern read_only_data ≡ [])
    × (contains_relative_target image 0x1045 0x1046 1 code_scope ≡ true)
    × (contains_relative_target image 0x1045 0x1050 1 code_scope ≡ false)
    × (address_from_rva image 0x40 16 code_scope ≡ ok 0x1040)
    × (address_from_rva image 0x40 17 code_scope ≡ err (address_outside_scope 0x40 17 code_scope))
unfolding scan scan_sections section_matches Pattern.find_offsets windows matching_offsets matches
    is_in_scope contains_relative_target holds_target address_from_rva holds_range
search_runs = (refl, refl, refl, refl, refl, refl)

find_offsets_iff_example :
    Member 2 (Pattern.find_offsets demo_pattern (0xAA ∷ 0xAA ∷ 0xAA ∷ 0xBB ∷ 0xAA ∷ []))
    ↔ OccursAt demo_pattern.bytes (0xAA ∷ 0xAA ∷ 0xAA ∷ 0xBB ∷ 0xAA ∷ []) 2
find_offsets_iff_example =
    find_offsets_iff demo_pattern (0xAA ∷ 0xAA ∷ 0xAA ∷ 0xBB ∷ 0xAA ∷ []) 2 (omega arith)

validate_pe_sections_iff_example :
    (validate_pe_sections headers 0x100
      ≡ ok (to_section text_header ∷ to_section rdata_header ∷ []))
    ↔ (IsAcceptable headers 0x100
        × (to_section text_header ∷ to_section rdata_header ∷ []
            ≡ map to_section headers.section_headers))
validate_pe_sections_iff_example =
    validate_pe_sections_iff headers 0x100 (to_section text_header ∷ to_section rdata_header ∷ [])
      (omega arith)

from_module-IsSnapshot_example : IsSnapshot calm image
from_module-IsSnapshot_example =
    from_module-IsSnapshot portex calm 0x1000 0x100 image (omega arith) image_runs

scan_iff_example :
    Member 0x1045 (scan image code_pattern code_scope)
    ↔ IsMatch image code_pattern code_scope 0x1045
scan_iff_example = scan_iff image code_pattern code_scope 0x1045 (omega arith) (omega arith)

contains_relative_target-inside_example : TargetInside image code_scope 0x1045 0x1046 1
contains_relative_target-inside_example =
    contains_relative_target-inside image 0x1045 0x1046 1 code_scope search_runs.2

address_from_rva-inside_example : (0x1040 ≡ 0x1000 + 0x40) × RvaInside image code_scope 0x40 16
address_from_rva-inside_example =
    address_from_rva-inside image 0x40 16 code_scope 0x1040 search_runs.4
