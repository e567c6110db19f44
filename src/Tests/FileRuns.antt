-- ===== src/Tests/FileRuns.antt =====
-- `from_pe_file` of src/patches/sigscan.rs on the file of Fixture.
use fc2_systemdetection.Scan.Range
use fc2_systemdetection.Memory.Bytes.{peek, poke}
use fc2_systemdetection.Prelude.{
  All, Bool-cases, List, [], arith, err, inl, inr, ok, refl, ◌∷◌, ◌≡◌,
}
use fc2_systemdetection.Scan.Error.{file_rejected, invalid_pe, raw_at_offset_zero, raw_outside_file}
use fc2_systemdetection.Scan.FileImage.{from_pe_file, loaded_sections, map_section, map_sections}
use fc2_systemdetection.Scan.Image.{LoadedSection, from_module, load_sections, read_image}
use fc2_systemdetection.Scan.Mapped.{IsFileImage, from_pe_file-IsFileImage}
use fc2_systemdetection.Scan.Offline.{
  AreLoadedAs, HoldsMapping, IsReadableAt, from_module-from_pe_file,
}
use fc2_systemdetection.Scan.Range.{read_at, validate_region, walk_regions}
use fc2_systemdetection.Scan.Sections.{
  check_header, check_headers, check_overlap, check_overlaps, to_section, validate_pe_sections,
}
use fc2_systemdetection.Tests.Fixture.{
  calm_os, file, file_headers, file_mapped, file_mapping, file_portex, file_rdata, file_section,
  file_text, loaded_file, loader_changed, portex,
}

file_runs :
    (from_pe_file file_portex 0x5000 file ≡ ok file_mapped)
    × (from_pe_file portex 0x5000 file ≡ err (invalid_pe (raw_at_offset_zero ".text")))
    × (from_pe_file file_portex 0x5000 (0x4D ∷ 0x5A ∷ 3 ∷ [])
        ≡ err (invalid_pe (raw_outside_file ".text")))
    × (from_pe_file file_portex 0x5000 (0x4D ∷ []) ≡ err (invalid_pe (file_rejected "")))
unfolding from_pe_file map_sections map_section loaded_sections validate_pe_sections check_headers
    check_header check_overlaps check_overlap
file_runs = (refl, refl, refl, refl)

abbrev found_text : LoadedSection
found_text = record { metadata = to_section file_text; bytes = peek loaded_file.bytes 0x1040 16 }

abbrev found_rdata : LoadedSection
found_rdata = file_section file_rdata

loaded_runs :
    from_module file_portex loaded_file (ok (0x1000, 0x100))
    ≡ ok (record { base = 0x1000; size = 0x100; sections = found_text ∷ found_rdata ∷ [] })
unfolding from_module read_image load_sections read_at validate_pe_sections check_headers
    check_header check_overlaps check_overlap Range.validate_readable_range walk_regions
    validate_region poke
loaded_runs = refl

from_pe_file-IsFileImage_example : IsFileImage file 0x5000 file_headers file_mapped
from_pe_file-IsFileImage_example =
    from_pe_file-IsFileImage file_portex 0x5000 file file_headers file_mapped refl (omega arith)
      file_runs.0

holds_mapping : HoldsMapping loaded_file.bytes 0x1000 0x100 file_mapping loader_changed
holds_mapping i below = elim (Bool-cases (loader_changed i)) [
  | inl there ↦ inl there
  | inr kept ↦ inr (ground arith)
]

readable_sections : All (IsReadableAt loaded_file 0x1000) file_mapped.image.sections
unfolding Range.validate_readable_range walk_regions validate_region
readable_sections = (refl, (refl, tt))

headers_read :
    file_portex.read_from (read_at file_portex loaded_file 0x1000 0x100) 0x100 ≡ ok file_headers
unfolding read_at Range.validate_readable_range walk_regions validate_region
headers_read = refl

from_module-from_pe_file_example :
    (found : List LoadedSection) × (from_module file_portex loaded_file (ok (0x1000, 0x100))
      ≡ ok (record { base = 0x1000; size = 0x100; sections = found }))
    × AreLoadedAs loader_changed file_mapped.image.sections found
from_module-from_pe_file_example =
    from_module-from_pe_file file_portex loaded_file 0x1000 0x5000 file file_headers file_mapped
      loader_changed (omega arith) (omega arith) refl file_runs.0 holds_mapping headers_read
      readable_sections
