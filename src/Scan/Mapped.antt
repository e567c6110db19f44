-- ===== src/Scan/Mapped.antt =====
-- The bytes that `ModuleImage::from_pe_file` of src/patches/sigscan.rs maps.
use fc2_systemdetection.Memory.Bytes.{Bytes}
use fc2_systemdetection.Prelude.{
  >>=-eq-ok, All, All-map, Bool-cases, List, Member, [], arith, inl, inr, is_empty, map, not, ok,
  ok-injective, refl, subst, usize_mod, ℕ, ◌&&◌, ◌<◌, ◌==◌, ◌||◌, ◌∷◌, ◌≡◌, ◌≢◌,
}
use fc2_systemdetection.Scan.FileImage.{
  FileMappedModule, from_pe_file, loaded_sections, map_sections, zeroed,
}
use fc2_systemdetection.Scan.Image.{LoadedSection}
use fc2_systemdetection.Scan.Layout.{IsAcceptable, validate_pe_sections_iff}
use fc2_systemdetection.Scan.Range.{Portex}
use fc2_systemdetection.Scan.Raw.{All-IsBlank, IsFilled, map_sections-IsFilled, section_content}
use fc2_systemdetection.Scan.Sections.{PeHeaders, SectionHeader, to_section, validate_pe_sections}

-- A loaded section has the raw data of a header of the file, filled up with zeros.
pub record IsMapped (file : List ℕ) (hs : List SectionHeader) (l : LoadedSection) : Type 0 where
  pub header : SectionHeader
  pub listed : Member header hs
  pub metadata_is : l.metadata ≡ to_section header
  pub content : l.bytes ≡ section_content file header

IsMapped-later :
    {file : List ℕ} {hs : List SectionHeader} (h : SectionHeader) (l : LoadedSection)
    → IsMapped file hs l
    → IsMapped file (h ∷ hs) l
IsMapped-later h l k = record {
  header = k.header;
  listed = inr k.listed;
  metadata_is = k.metadata_is;
  content = k.content;
}

loaded_sections-IsMapped :
    (file : List ℕ) (mapping : Bytes) (hs : List SectionHeader)
    → All (IsFilled file mapping) hs
    → All (IsMapped file hs) (loaded_sections mapping (map to_section hs))
unfolding loaded_sections
loaded_sections-IsMapped file mapping [] filled = tt
loaded_sections-IsMapped file mapping (h ∷ hs) (here, filled) =
    let rest =
      All-map (loaded_sections mapping (map to_section hs)) (λ l. IsMapped-later h l)
        (loaded_sections-IsMapped file mapping hs filled) in
    let s = to_section h in
    elim (Bool-cases (not (s.size == 0) && (s.readable || s.executable))) [
      | inr skipped ↦ rw (skipped, loaded_sections) rest
      | inl wanted ↦
          rw (wanted, loaded_sections)
            (record { header = h; listed = inl refl; metadata_is = refl; content = here }, rest)
    ]

-- What `from_pe_file` maps.
pub record IsFileImage (file : List ℕ) (base : ℕ) (headers : PeHeaders) (mapped : FileMappedModule)
    : Type 0 where
  pub acceptable : IsAcceptable headers headers.size_of_image
  pub base_is : mapped.image.base ≡ base
  pub size_is : mapped.image.size ≡ headers.size_of_image
  pub some_sections : mapped.image.sections ≢ []
  pub sections_are :
      mapped.image.sections
      ≡ loaded_sections mapped.mapping (map to_section headers.section_headers)
  pub filled : All (IsMapped file headers.section_headers) mapped.image.sections

-- For an image size that fits a `usize`, an image that `from_pe_file` maps has the layout that
-- `validate_pe_sections` accepts, and each of its sections has the raw data of its header in the
-- file, followed by zeros.
pub from_pe_file-IsFileImage :
    {PortexError : Type 0} (portex : Portex PortexError) (base : ℕ) (file : List ℕ)
    (headers : PeHeaders) (mapped : FileMappedModule)
    → portex.from_slice file ≡ ok headers
    → headers.size_of_image < usize_mod
    → from_pe_file portex base file ≡ ok mapped
    → IsFileImage file base headers mapped
unfolding from_pe_file
from_pe_file-IsFileImage portex base file headers mapped parsed small e =
    let validated = rw parsed at e in
    let (sections, accepted, mapping_made) =
      >>=-eq-ok (validate_pe_sections headers headers.size_of_image) _ validated in
    let (acceptable, sections_are) =
      (validate_pe_sections_iff headers headers.size_of_image sections small).0 accepted in
    let (mapping, copied, whole) =
      >>=-eq-ok (map_sections file headers.size_of_image sections headers.section_headers zeroed) _
        mapping_made in
    let loaded = loaded_sections mapping sections in
    elim (Bool-cases (is_empty loaded)) [
      | inl nothing ↦ absurd (ground (arith, whole))
      | inr something ↦
          subst (IsFileImage file base headers) (ok-injective (rw something at whole)) (record {
            acceptable = acceptable;
            base_is = refl;
            size_is = refl;
            some_sections = ground arith;
            sections_are = rw sections_are refl;
            filled = rw sections_are (
                loaded_sections-IsMapped file mapping headers.section_headers (
                  map_sections-IsFilled file headers.size_of_image headers.section_headers zeroed
                    mapping acceptable.laid_out (All-IsBlank headers.section_headers)
                    (rw sections_are at copied)));
          })
    ]
