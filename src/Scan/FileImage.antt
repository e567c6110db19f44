-- ===== src/Scan/FileImage.antt =====
-- `ModuleImage::from_pe_file` of src/patches/sigscan.rs: a file mapped into the heap as the loader
-- would map it.
use fc2_systemdetection.Memory.Bytes.{Bytes, peek, poke}
use fc2_systemdetection.Prelude.{
  List, Result, [], checked_add, drop, err, if◌then◌else◌, is_empty, length, ltb, map_err, not, ok,
  ok_or, take, ℕ, ◌&&◌, ◌==◌, ◌>>=◌, ◌||◌, ◌∷◌,
}
use fc2_systemdetection.Scan.Error.{
  ScanError, file_rejected, invalid_pe, mapped_range_overflow, no_readable_sections,
  raw_at_offset_zero, raw_outside_file, raw_outside_mapping, raw_range_overflow,
}
use fc2_systemdetection.Scan.Image.{LoadedSection, ModuleImage}
use fc2_systemdetection.Scan.Range.{Portex}
use fc2_systemdetection.Scan.Sections.{PeSection, SectionHeader, validate_pe_sections}

-- The mapping is a range of the heap; `mapping` has its bytes by their offsets.
pub record FileMappedModule : Type 0 where
  pub image : ModuleImage
  pub mapping : Bytes

-- `vec![0; image_size]`
abbrev pub zeroed : Bytes
zeroed offset = 0

-- `file[start..start + n]`
abbrev pub slice : List ℕ → ℕ → ℕ → List ℕ
slice file start n = take n (drop start file)

-- The body of the loop: the raw data of one section are copied.
unfoldable pub map_section : List ℕ → ℕ → PeSection → SectionHeader → Bytes → Result ScanError Bytes
map_section file image_size section header mapping =
    let raw_size = header.size_of_raw_data in
    let raw_start = header.pointer_to_raw_data in
    if raw_size == 0
    then ok mapping
    else if raw_start == 0
    then err (invalid_pe (raw_at_offset_zero section.name))
    else (ok_or (invalid_pe (raw_range_overflow section.name)) (checked_add raw_start raw_size)
        >>= λ raw_end.
            if ltb (length file) raw_end
            then err (invalid_pe (raw_outside_file section.name))
            else (ok_or (invalid_pe (mapped_range_overflow section.name))
                  (checked_add section.rva raw_size)
                >>= λ mapped_end.
                    if ltb image_size mapped_end || ltb section.size raw_size
                    then err (invalid_pe (raw_outside_mapping section.name))
                    else ok (poke mapping section.rva (slice file raw_start raw_size))))

-- The loop over the sections, each with its header.
unfoldable pub map_sections :
    List ℕ → ℕ → List PeSection → List SectionHeader → Bytes → Result ScanError Bytes
unfolding map_section
map_sections file image_size [] headers mapping = ok mapping
map_sections file image_size (s ∷ ss) [] mapping = ok mapping
map_sections file image_size (s ∷ ss) (h ∷ hs) mapping =
    map_section file image_size s h mapping >>= λ mapped. map_sections file image_size ss hs mapped

-- The sections that have readable bytes, with their bytes in the mapping.
unfoldable pub loaded_sections : Bytes → List PeSection → List LoadedSection
loaded_sections mapping [] = []
loaded_sections mapping (s ∷ ss) =
    let rest = loaded_sections mapping ss in
    if not (s.size == 0) && (s.readable || s.executable)
    then record { metadata = s; bytes = peek mapping s.rva s.size } ∷ rest
    else rest

-- `ModuleImage::from_pe_file`; `base` is the address of the mapping.
unfoldable pub from_pe_file :
    {PortexError : Type 0} → Portex PortexError → ℕ → List ℕ → Result ScanError FileMappedModule
unfolding map_sections loaded_sections
from_pe_file portex base file =
    map_err (λ e. invalid_pe (file_rejected (portex.to_text e))) (portex.from_slice file)
    >>= λ headers. validate_pe_sections headers headers.size_of_image >>= λ sections.
        map_sections file headers.size_of_image sections headers.section_headers zeroed
        >>= λ mapping.
            let loaded = loaded_sections mapping sections in
            if is_empty loaded
            then err (invalid_pe no_readable_sections)
            else ok (record {
              image = record { base = base; size = headers.size_of_image; sections = loaded };
              mapping = mapping;
            })
