-- ===== src/Scan/Error.antt =====
-- `ScanScope` and `ScanError`. A message that the source formats is kept as a value that names it,
-- with what is formatted into it.
use fc2_systemdetection.Prelude.{String, ℕ}
use fc2_systemdetection.Text.{Text}

pub data ScanScope : Type 0 where
  code_scope read_only_data : ScanScope

-- The messages of `ScanError::InvalidPe`.
pub data PeFault : Type 0 where
  empty_image : PeFault
  headers_rejected : String → PeFault
  file_rejected : String → PeFault
  raw_at_offset_zero : String → PeFault
  raw_range_overflow : String → PeFault
  raw_outside_file : String → PeFault
  mapped_range_overflow : String → PeFault
  raw_outside_mapping : String → PeFault
  not_32_bit : PeFault
  unsupported_machine : ℕ → PeFault
  not_a_dll : PeFault
  invalid_section_count : ℕ → PeFault
  size_of_image_differs : ℕ → ℕ → PeFault
  section_range_overflow : String → PeFault
  section_outside_image : String → PeFault
  sections_overlap : String → String → PeFault
  section_address_overflow : PeFault
  no_readable_sections : PeFault
  rva_range_overflow : PeFault
  rva_address_overflow : PeFault

-- The messages of sigscan.rs's own `validate_readable_range`.
pub data RangeFault : Type 0 where
  address_range_overflow : RangeFault
  query_failed_at : ℕ → RangeFault
  memory_not_committed : RangeFault
  protection_not_readable : ℕ → RangeFault
  region_range_overflow : RangeFault
  query_did_not_advance : RangeFault

pub data ScanError : Type 0 where
  invalid_pattern : Text → ScanError
  module_information : String → ScanError
  invalid_pe : PeFault → ScanError
  unreadable_section : String → RangeFault → ScanError
  address_outside_image : ℕ → ℕ → ScanError
  address_outside_scope : ℕ → ℕ → ScanScope → ScanError
