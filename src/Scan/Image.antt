-- ===== src/Scan/Image.antt =====
-- `ModuleImage` of src/patches/sigscan.rs: a snapshot of the readable sections of a loaded module.
use fc2_systemdetection.Memory.Bytes.{peek}
use fc2_systemdetection.Memory.Os.{Machine, Os}
use fc2_systemdetection.Prelude.{
  Bool, List, Result, String, [], any, checked_add, checked_sub, err, false, if◌then◌else◌,
  is_empty, leb, length, ltb, map_err, none, not, ok, ok_or, some, ℕ, ◌&&◌, ◌++◌, ◌==◌, ◌>>=◌, ◌>>◌,
  ◌||◌, ◌∷◌,
}
use fc2_systemdetection.Scan.Error.{
  ScanError, ScanScope, address_outside_image, address_outside_scope, empty_image, headers_rejected,
  invalid_pe, module_information, no_readable_sections, rva_address_overflow, rva_range_overflow,
  section_address_overflow, unreadable_section,
}
use fc2_systemdetection.Scan.Pattern.{Pattern, find_offsets}
use fc2_systemdetection.Scan.Range.{Portex, read_at, validate_readable_range}
use fc2_systemdetection.Scan.Sections.{PeSection, is_in_scope, validate_pe_sections}

pub record LoadedSection : Type 0 where
  pub metadata : PeSection
  pub bytes : List ℕ

pub record ModuleImage : Type 0 where
  pub base : ℕ
  pub size : ℕ
  pub sections : List LoadedSection

-- The offsets of one section as addresses; those past the address space are left out.
unfoldable pub section_matches : ℕ → List ℕ → List ℕ
section_matches section_address [] = []
section_matches section_address (offset ∷ offsets) =
    let rest = section_matches section_address offsets in
    elim (checked_add section_address offset) [ none ↦ rest | some address ↦ address ∷ rest ]

unfoldable pub scan_sections : ℕ → List LoadedSection → Pattern → ScanScope → List ℕ
unfolding section_matches find_offsets is_in_scope
scan_sections base [] pattern scope = []
scan_sections base (s ∷ ss) pattern scope =
    let rest = scan_sections base ss pattern scope in
    if not (is_in_scope scope s.metadata) then rest else elim (checked_add base s.metadata.rva) [
      | none ↦ rest
      | some section_address ↦
          section_matches section_address (find_offsets pattern s.bytes) ++ rest
    ]

-- `ModuleImage::scan`
unfoldable pub scan : ModuleImage → Pattern → ScanScope → List ℕ
unfolding scan_sections
scan image = scan_sections image.base image.sections

-- The closure of `address_from_rva`.
unfoldable pub holds_range : ℕ → ℕ → ScanScope → LoadedSection → Bool
unfolding is_in_scope
holds_range rva end scope s =
    if not (is_in_scope scope s.metadata)
    then false
    else elim (checked_add s.metadata.rva s.metadata.size) [
      | none ↦ false
      | some section_end ↦ leb s.metadata.rva rva && leb end section_end
    ]

-- `ModuleImage::address_from_rva`
unfoldable pub address_from_rva : ModuleImage → ℕ → ℕ → ScanScope → Result ScanError ℕ
unfolding holds_range
address_from_rva image rva length scope =
    ok_or (invalid_pe rva_range_overflow) (checked_add rva length) >>= λ end.
    if ltb image.size end
    then err (address_outside_image rva length)
    else if not (any (holds_range rva end scope) image.sections)
    then err (address_outside_scope rva length scope)
    else ok_or (invalid_pe rva_address_overflow) (checked_add image.base rva)

-- The closure of `contains_relative_target`.
unfoldable pub holds_target : ℕ → ℕ → ℕ → ScanScope → LoadedSection → Bool
unfolding is_in_scope
holds_target match_rva target_rva target_end scope s =
    if not (is_in_scope scope s.metadata)
    then false
    else elim (checked_add s.metadata.rva s.metadata.size) [
      | none ↦ false
      | some section_end ↦
          leb s.metadata.rva match_rva
          && ltb match_rva section_end
          && leb s.metadata.rva target_rva
          && leb target_end section_end
    ]

-- `ModuleImage::contains_relative_target`
unfoldable pub contains_relative_target : ModuleImage → ℕ → ℕ → ℕ → ScanScope → Bool
unfolding holds_target
contains_relative_target image match_address target_address length scope =
    elim (checked_sub match_address image.base) [
      | none ↦ false
      | some match_rva ↦ elim (checked_sub target_address image.base) [
        | none ↦ false
        | some target_rva ↦ elim (checked_add target_rva length) [
          | none ↦ false
          | some target_end ↦
              any (holds_target match_rva target_rva target_end scope) image.sections
        ]
      ]
    ]

module _ {Pages : Type 0} ⦃os : Os Pages⦄ where
  -- The loop of `from_module` over the validated sections.
  unfoldable pub load_sections :
      Machine Pages → ℕ → List PeSection → Result ScanError (List LoadedSection)
  load_sections m base [] = ok []
  load_sections m base (s ∷ ss) =
      let rest = load_sections m base ss in
      if s.size == 0 || (not s.readable && not s.executable)
      then rest
      else (ok_or (invalid_pe section_address_overflow) (checked_add base s.rva) >>= λ address.
          map_err (unreadable_section s.name) (validate_readable_range m.pages address s.size)
          >> (rest >>= λ loaded.
              ok (record { metadata = s; bytes = peek m.bytes address s.size } ∷ loaded)))

  -- `ModuleImage::from_module`, from the headers on.
  unfoldable pub read_image :
      {PortexError : Type 0}
      → Portex PortexError
      → Machine Pages
      → ℕ
      → ℕ
      → Result ScanError ModuleImage
  unfolding load_sections read_at
  read_image portex m base size =
      map_err (λ e. invalid_pe (headers_rejected (portex.to_text e)))
        (portex.read_from (read_at portex m base size) size)
      >>= λ headers. validate_pe_sections headers size >>= λ sections.
          load_sections m base sections >>= λ loaded.
          if is_empty loaded
          then err (invalid_pe no_readable_sections)
          else ok (record { base = base; size = size; sections = loaded })

  -- `ModuleImage::from_module`, from the result of `K32GetModuleInformation` on: the address and
  -- the size of the module, or the text of the error.
  unfoldable pub from_module :
      {PortexError : Type 0}
      → Portex PortexError
      → Machine Pages
      → Result String (ℕ × ℕ)
      → Result ScanError ModuleImage
  unfolding read_image
  from_module portex m (err error) = err (module_information error)
  from_module portex m (ok (base, size)) =
      if base == 0 || size == 0 then err (invalid_pe empty_image) else read_image portex m base size
