-- ===== src/Scan/Display.antt =====
-- `Display` of `ScanError`, and the messages of src/patches/sigscan.rs. `debug` is `{:?}` of a text.
use fc2_systemdetection.Prelude.{[], length, ◌++◌, ◌∷◌}
use fc2_systemdetection.Scan.Error.{
  PeFault, RangeFault, ScanError, ScanScope, address_outside_image, address_outside_scope,
  address_range_overflow, code_scope, empty_image, file_rejected, headers_rejected, invalid_pattern,
  invalid_pe, invalid_section_count, mapped_range_overflow, memory_not_committed,
  module_information, no_readable_sections, not_32_bit, not_a_dll, protection_not_readable,
  query_did_not_advance, query_failed_at, raw_at_offset_zero, raw_outside_file, raw_outside_mapping,
  raw_range_overflow, read_only_data, region_range_overflow, rva_address_overflow,
  rva_range_overflow, section_address_overflow, section_outside_image, section_range_overflow,
  sections_overlap, size_of_image_differs, unreadable_section, unsupported_machine,
}
use fc2_systemdetection.Text.{Text, codes}
use fc2_systemdetection.Text.Format.{concat, decimal, hex, hex_address, hex_padded}

unfoldable pub display_pe_fault : (Text → Text) → PeFault → Text
unfolding decimal hex hex_padded
display_pe_fault debug empty_image = codes "module information returned an empty image"
display_pe_fault debug (headers_rejected error) =
    codes "Portex rejected the loaded headers: " ++ codes error
display_pe_fault debug (file_rejected error) = codes "Portex rejected the file: " ++ codes error
display_pe_fault debug (raw_at_offset_zero name) =
    concat (codes "section " ∷ debug (codes name) ∷ codes " has raw data at file offset zero" ∷ [])
display_pe_fault debug (raw_range_overflow name) =
    concat (codes "section " ∷ debug (codes name) ∷ codes " raw range overflow" ∷ [])
display_pe_fault debug (raw_outside_file name) =
    concat (codes "section " ∷ debug (codes name) ∷ codes " raw data ends outside the file" ∷ [])
display_pe_fault debug (mapped_range_overflow name) =
    concat (codes "section " ∷ debug (codes name) ∷ codes " mapped range overflow" ∷ [])
display_pe_fault debug (raw_outside_mapping name) =
    concat
      (codes "section " ∷ debug (codes name) ∷ codes " raw data ends outside its mapped range" ∷ [])
display_pe_fault debug not_32_bit = codes "Dunia.dll is not a 32-bit PE image"
display_pe_fault debug (unsupported_machine machine) =
    codes "Dunia.dll has unsupported machine type 0x" ++ hex_padded 4 machine
display_pe_fault debug not_a_dll = codes "loaded image is not marked as a DLL"
display_pe_fault debug (invalid_section_count count) =
    codes "invalid section count " ++ decimal count
display_pe_fault debug (size_of_image_differs image_size module_size) = concat (
    codes "header SizeOfImage 0x"
    ∷ hex image_size
    ∷ codes " differs from mapped size 0x"
    ∷ hex module_size
    ∷ [])
display_pe_fault debug (section_range_overflow name) =
    concat (codes "section " ∷ debug (codes name) ∷ codes " range overflow" ∷ [])
display_pe_fault debug (section_outside_image name) =
    concat (codes "section " ∷ debug (codes name) ∷ codes " ends outside SizeOfImage" ∷ [])
display_pe_fault debug (sections_overlap name other) = concat (
    codes "sections "
    ∷ debug (codes name)
    ∷ codes " and "
    ∷ debug (codes other)
    ∷ codes " overlap in memory"
    ∷ [])
display_pe_fault debug section_address_overflow = codes "section address overflow"
display_pe_fault debug no_readable_sections = codes "PE image has no readable code or data sections"
display_pe_fault debug rva_range_overflow = codes "RVA range overflow"
display_pe_fault debug rva_address_overflow = codes "RVA address overflow"

-- The messages of `validate_readable_range` and `validate_region`.
unfoldable pub display_range_fault : RangeFault → Text
unfolding hex hex_address
display_range_fault address_range_overflow = codes "address range overflow"
display_range_fault (query_failed_at cursor) = codes "VirtualQuery failed at " ++ hex_address cursor
display_range_fault memory_not_committed = codes "memory is not committed"
display_range_fault (protection_not_readable protection) =
    concat (codes "memory protection 0x" ∷ hex protection ∷ codes " is not readable" ∷ [])
display_range_fault region_range_overflow = codes "memory-region range overflow"
display_range_fault query_did_not_advance = codes "VirtualQuery did not advance"

-- The derived `Debug` of `ScanScope`.
abbrev pub debug_scope : ScanScope → Text
debug_scope code_scope = codes "Code"
debug_scope read_only_data = codes "ReadOnlyData"

unfoldable pub display_scan : (Text → Text) → ScanError → Text
unfolding display_pe_fault display_range_fault decimal hex_address
display_scan debug (invalid_pattern pattern) = codes "invalid signature " ++ debug pattern
display_scan debug (module_information error) =
    codes "could not query module information: " ++ codes error
display_scan debug (invalid_pe reason) = codes "invalid PE image: " ++ display_pe_fault debug reason
display_scan debug (unreadable_section name reason) = concat (
    codes "PE section "
    ∷ debug (codes name)
    ∷ codes " is not readable: "
    ∷ display_range_fault reason
    ∷ [])
display_scan debug (address_outside_image rva length) = concat (
    codes "RVA "
    ∷ hex_address rva
    ∷ codes " (length "
    ∷ decimal length
    ∷ codes ") is outside the module image"
    ∷ [])
display_scan debug (address_outside_scope rva length scope) = concat (
    codes "RVA "
    ∷ hex_address rva
    ∷ codes " (length "
    ∷ decimal length
    ∷ codes ") is outside "
    ∷ debug_scope scope
    ∷ codes " sections"
    ∷ [])
