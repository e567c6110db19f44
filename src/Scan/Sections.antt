-- ===== src/Scan/Sections.antt =====
-- `PeSection` and `validate_pe_sections` of src/patches/sigscan.rs.
use fc2_systemdetection.Prelude.{
  Bool, List, Result, String, [], checked_add, err, if◌then◌else◌, length, ltb, max, none, not, ok,
  some, ℕ, ◌&&◌, ◌+◌, ◌==◌, ◌>>=◌, ◌>>◌, ◌||◌, ◌∷◌,
}
use fc2_systemdetection.Scan.Error.{
  ScanError, ScanScope, code_scope, invalid_pe, invalid_section_count, not_32_bit, not_a_dll,
  read_only_data, section_outside_image, section_range_overflow, sections_overlap,
  size_of_image_differs, unsupported_machine,
}

-- What the source reads of one section header that Portex has parsed: fields, and the results of
-- `name_str`, `is_executable`, `is_readable` and `is_writable`.
pub record SectionHeader : Type 0 where
  pub name_str : String
  pub virtual_size : ℕ
  pub virtual_address : ℕ
  pub size_of_raw_data : ℕ
  pub pointer_to_raw_data : ℕ
  pub is_executable : Bool
  pub is_readable : Bool
  pub is_writable : Bool

-- What the source reads of `portex::PEHeaders`. `is_i386` is the test
-- `machine_type() == Some(MachineType::I386)`.
pub record PeHeaders : Type 0 where
  pub is_64bit : Bool
  pub is_i386 : Bool
  pub machine : ℕ
  pub is_dll : Bool
  pub size_of_image : ℕ
  pub section_headers : List SectionHeader

pub record PeSection : Type 0 where
  pub name : String
  pub rva : ℕ
  pub size : ℕ
  pub executable : Bool
  pub readable : Bool
  pub writable : Bool

-- `PeSection::is_in_scope`
unfoldable pub is_in_scope : ScanScope → PeSection → Bool
is_in_scope code_scope s = s.executable
is_in_scope read_only_data s = s.readable && not s.writable && not s.executable

-- The section of a header.
abbrev pub to_section : SectionHeader → PeSection
to_section h = record {
  name = h.name_str;
  rva = h.virtual_address;
  size = max h.virtual_size h.size_of_raw_data;
  executable = h.is_executable;
  readable = h.is_readable;
  writable = h.is_writable;
}

-- The body of the loop over the headers.
unfoldable pub check_header : ℕ → SectionHeader → Result ScanError PeSection
check_header image_size h =
    let size = max h.virtual_size h.size_of_raw_data in
    elim (checked_add h.virtual_address size) [
      | none ↦ err (invalid_pe (section_range_overflow h.name_str))
      | some end ↦
          if ltb image_size end
          then err (invalid_pe (section_outside_image h.name_str))
          else ok (to_section h)
    ]

unfoldable pub check_headers : ℕ → List SectionHeader → Result ScanError (List PeSection)
unfolding check_header
check_headers image_size [] = ok []
check_headers image_size (h ∷ hs) = check_header image_size h >>= λ section.
    check_headers image_size hs >>= λ sections. ok (section ∷ sections)

-- The inner loop over the sections behind one that is not empty.
unfoldable pub check_overlap : PeSection → List PeSection → Result ScanError (Unit {0})
check_overlap section [] = ok tt
check_overlap section (other ∷ others) =
    let rest = check_overlap section others in
    if other.size == 0
    then rest
    else if ltb section.rva (other.rva + other.size) && ltb other.rva (section.rva + section.size)
    then err (invalid_pe (sections_overlap section.name other.name))
    else rest

unfoldable pub check_overlaps : List PeSection → Result ScanError (Unit {0})
unfolding check_overlap
check_overlaps [] = ok tt
check_overlaps (section ∷ others) =
    let rest = check_overlaps others in
    if section.size == 0 then rest else check_overlap section others >> rest

-- `validate_pe_sections`
unfoldable pub validate_pe_sections : PeHeaders → ℕ → Result ScanError (List PeSection)
unfolding check_headers check_overlaps
validate_pe_sections parsed module_size =
    let count = length parsed.section_headers in
    let image_size = parsed.size_of_image in
    if parsed.is_64bit
    then err (invalid_pe not_32_bit)
    else if not parsed.is_i386
    then err (invalid_pe (unsupported_machine parsed.machine))
    else if not parsed.is_dll
    then err (invalid_pe not_a_dll)
    else if count == 0 || ltb 96 count
    then err (invalid_pe (invalid_section_count count))
    else if image_size == 0 || not (image_size == module_size)
    then err (invalid_pe (size_of_image_differs image_size module_size))
    else (check_headers image_size parsed.section_headers >>= λ sections.
        check_overlaps sections >> ok sections)
