-- ===== src/Scan/Complete.antt =====
-- The matches of `ModuleImage::scan` of src/patches/sigscan.rs.
use fc2_systemdetection.Prelude.{
  Bool-cases, List, Member, Option-cases, [], arith, checked_add, inl, inr, refl, some, subst, sym,
  true, usize_mod, ℕ, ◌++◌, ◌+◌, ◌<◌, ◌↔◌, ◌∷◌, ◌≡◌,
}
use fc2_systemdetection.Scan.Error.{ScanScope}
use fc2_systemdetection.Scan.Find.{find_offsets_iff}
use fc2_systemdetection.Scan.Image.{
  LoadedSection, ModuleImage, scan, scan_sections, section_matches,
}
use fc2_systemdetection.Scan.Pattern.{Pattern, find_offsets, len}
use fc2_systemdetection.Scan.Search.{IsMatch, scan-IsMatch}
use fc2_systemdetection.Scan.Sections.{is_in_scope}

Member-before : {A : Type 0} (a : A) (xs ys : List A) → Member a xs → Member a (xs ++ ys)
Member-before a [] ys h = absurd h
Member-before a (x ∷ xs) ys (inl here) = inl here
Member-before a (x ∷ xs) ys (inr there) = inr (Member-before a xs ys there)

Member-behind : {A : Type 0} (a : A) (xs ys : List A) → Member a ys → Member a (xs ++ ys)
Member-behind a [] ys h = h
Member-behind a (x ∷ xs) ys h = inr (Member-behind a xs ys h)

pub checked_add_fits : (a b : ℕ) → a + b < usize_mod → checked_add a b ≡ some (a + b)
checked_add_fits a b h = ground arith

section_matches_complete :
    (start : ℕ) (offsets : List ℕ) (o : ℕ)
    → start + o < usize_mod
    → Member o offsets
    → Member (start + o) (section_matches start offsets)
unfolding section_matches
section_matches_complete start [] o fits h = absurd h
section_matches_complete start (p ∷ ps) o fits (inl here) =
    rw (← here, checked_add_fits start o fits, section_matches) (inl refl)
section_matches_complete start (p ∷ ps) o fits (inr there) =
    let later = section_matches_complete start ps o fits there in
    elim (Option-cases (checked_add start p)) [
      | inl past ↦ rw (past, section_matches) later
      | inr (a, found) ↦ rw (found, section_matches) (inr later)
    ]

scan_sections_head :
    (base : ℕ) (s : LoadedSection) (ss : List LoadedSection) (pattern : Pattern) (scope : ScanScope)
    (offset : ℕ)
    → is_in_scope scope s.metadata ≡ true
    → Member offset (find_offsets pattern s.bytes)
    → base + s.metadata.rva + offset < usize_mod
    → Member (base + s.metadata.rva + offset) (scan_sections base (s ∷ ss) pattern scope)
unfolding scan_sections
scan_sections_head base s ss pattern scope offset scoped found fits =
    let start = base + s.metadata.rva in
    let placed : checked_add base s.metadata.rva ≡ some start =
      checked_add_fits base s.metadata.rva (omega (arith, fits)) in
    rw (scoped, scan_sections)
      (rw (placed, scan_sections)
        (Member-before (start + offset) (section_matches start (find_offsets pattern s.bytes))
          (scan_sections base ss pattern scope)
          (section_matches_complete start (find_offsets pattern s.bytes) offset fits found)))

scan_sections_complete :
    (base : ℕ) (ss : List LoadedSection) (pattern : Pattern) (scope : ScanScope) (offset : ℕ)
    (section : LoadedSection)
    → Member section ss
    → is_in_scope scope section.metadata ≡ true
    → Member offset (find_offsets pattern section.bytes)
    → base + section.metadata.rva + offset < usize_mod
    → Member (base + section.metadata.rva + offset) (scan_sections base ss pattern scope)
unfolding scan_sections
scan_sections_complete base [] pattern scope offset section h scoped found fits = absurd h
scan_sections_complete base (s ∷ ss) pattern scope offset section (inl here) scoped found fits =
    rw here (
      scan_sections_head base s ss pattern scope offset (rw (← here) scoped) (rw (← here) found)
        (rw (← here) fits))
scan_sections_complete base (s ∷ ss) pattern scope offset section (inr there) scoped found fits =
    let later =
      scan_sections_complete base ss pattern scope offset section there scoped found fits in
    elim (Bool-cases (is_in_scope scope s.metadata)) [
      | inr other ↦ rw (other, scan_sections) later
      | inl here ↦ elim (Option-cases (checked_add base s.metadata.rva)) [
        | inl past ↦ rw (here, scan_sections) (rw (past, scan_sections) later)
        | inr (start, placed) ↦
            rw (here, scan_sections)
              (rw (placed, scan_sections)
                (Member-behind _ (section_matches start (find_offsets pattern s.bytes)) _ later))
      ]
    ]

-- For a pattern that is not empty, the addresses in the address space that `scan` returns are exactly those of the occurrences of
-- the pattern inside a section of the scope.
pub scan_iff :
    (image : ModuleImage) (pattern : Pattern) (scope : ScanScope) (address : ℕ)
    → 0 < len pattern
    → address < usize_mod
    → Member address (scan image pattern scope) ↔ IsMatch image pattern scope address
unfolding scan
scan_iff image pattern scope address positive fits = (
  scan-IsMatch image pattern scope address positive,
  λ h.
      subst (λ a. Member a (scan image pattern scope)) (sym h.address_is)
        (scan_sections_complete image.base image.sections pattern scope h.offset h.section
          h.in_scope.listed h.in_scope.scoped
          ((find_offsets_iff pattern h.section.bytes h.offset positive).1 h.occurs)
          (rw (← h.address_is) fits)),
)
