-- ===== src/Scan/Layout.antt =====
-- The sections that `validate_pe_sections` of src/patches/sigscan.rs accepts.
use fc2_systemdetection.Memory.Bytes.{Disjoint, InRange}
use fc2_systemdetection.Prelude.{
  >>=-eq-ok, All, Bool, Bool-cases, List, Result, [], ap, arith, err, false, if◌then◌else◌, inl,
  inr, length, ltb, map, max, not, ok, refl, sym, true, usize_mod, ℕ, ◌&&◌, ◌+◌, ◌<◌, ◌==◌, ◌>>=◌,
  ◌>>◌, ◌↔◌, ◌∙◌, ◌∷◌, ◌≡◌, ◌≤◌,
}
use fc2_systemdetection.Scan.Error.{ScanError, invalid_pe, sections_overlap}
use fc2_systemdetection.Scan.Sections.{
  PeHeaders, PeSection, SectionHeader, check_header, check_headers, check_overlap, check_overlaps,
  to_section, validate_pe_sections,
}

abbrev pub IsInside : ℕ → PeSection → Type 0
IsInside image_size s = s.rva + s.size ≤ image_size

-- Two sections share no address.
abbrev pub AreApart : PeSection → PeSection → Type 0
AreApart s o = Disjoint s.rva s.size o.rva o.size

abbrev pub AreLaidOut : List PeSection → Type 0
AreLaidOut [] = Unit
AreLaidOut (s ∷ ss) = All (AreApart s) ss × AreLaidOut ss

-- The conditions under which an image is accepted.
pub record IsAcceptable (parsed : PeHeaders) (module_size : ℕ) : Type 0 where
  pub is_32bit : parsed.is_64bit ≡ false
  pub for_i386 : parsed.is_i386 ≡ true
  pub dll : parsed.is_dll ≡ true
  pub some_sections : 1 ≤ length parsed.section_headers
  pub few_sections : length parsed.section_headers ≤ 96
  pub not_empty : 0 < parsed.size_of_image
  pub same_size : parsed.size_of_image ≡ module_size
  pub inside : All (IsInside parsed.size_of_image) (map to_section parsed.section_headers)
  pub laid_out : AreLaidOut (map to_section parsed.section_headers)

-- The test of the inner loop, for a section `s` that is not empty.
abbrev collides : PeSection → PeSection → Bool
collides s o = not (o.size == 0) && (ltb s.rva (o.rva + o.size) && ltb o.rva (s.rva + s.size))

check_overlap-cons :
    (s o : PeSection) (os : List PeSection)
    → check_overlap s (o ∷ os) ≡ (
        if collides s o
        then err (invalid_pe (sections_overlap s.name o.name))
        else check_overlap s os)
unfolding check_overlap
check_overlap-cons s o os = ground arith

AreApart-collides : (s o : PeSection) → collides s o ≡ false → AreApart s o
AreApart-collides s o h c in_s in_o = ground arith

collides-AreApart : (s o : PeSection) → 0 < s.size → AreApart s o → collides s o ≡ false
collides-AreApart s o h apart = elim (Bool-cases (collides s o)) [
  | inr free ↦ free
  | inl hit ↦
      let in_s : InRange s.rva s.size (max s.rva o.rva) = (ground arith, ground arith) in
      let in_o : InRange o.rva o.size (max s.rva o.rva) = (ground arith, ground arith) in
      absurd (apart (max s.rva o.rva) in_s in_o)
]

check_overlap-ok :
    (s : PeSection) (os : List PeSection)
    → 0 < s.size
    → (check_overlap s os ≡ ok tt) ↔ All (AreApart s) os
check_overlap-ok s [] h = ((λ e. tt), λ a. unfold check_overlap in refl)
check_overlap-ok s (o ∷ os) h = (
  (λ e. elim (Bool-cases (collides s o)) [
    | inl hit ↦ absurd (ground (arith, check_overlap-cons s o os))
    | inr free ↦ (
      AreApart-collides s o free,
      (check_overlap-ok s os h).0 (rw (check_overlap-cons s o os, free) at e),
    )
  ]),
  λ a.
      rw (check_overlap-cons s o os, collides-AreApart s o h a.0) ((check_overlap-ok s os h).1 a.1),
)

AreApart-empty : (s : PeSection) (os : List PeSection) → s.size ≡ 0 → All (AreApart s) os
AreApart-empty s [] h = tt
AreApart-empty s (o ∷ os) h = ((λ c in_s in_o. omega arith), AreApart-empty s os h)

check_overlaps-ok : (ss : List PeSection) → (check_overlaps ss ≡ ok tt) ↔ AreLaidOut ss
unfolding check_overlaps
check_overlaps-ok [] = ((λ e. tt), λ a. refl)
check_overlaps-ok (s ∷ ss) = elim (Bool-cases (s.size == 0)) [
  | inl empty ↦ (
    (λ e. (
      AreApart-empty s ss (ground arith),
      (check_overlaps-ok ss).0 (rw (empty, check_overlaps) at e),
    )),
    λ a. rw (empty, check_overlaps) ((check_overlaps-ok ss).1 a.1),
  )
  | inr full ↦ (
    (λ e.
        let (u, first, rest) = >>=-eq-ok (check_overlap s ss) _ (rw (full, check_overlaps) at e) in
        ((check_overlap-ok s ss (ground arith)).0 first, (check_overlaps-ok ss).0 rest)),
    λ a.
        rw (full, check_overlaps)
          (rw ((check_overlap-ok s ss (ground arith)).1 a.0, (check_overlaps-ok ss).1 a.1) refl),
  )
]

check_header-ok :
    (image_size : ℕ) (h : SectionHeader) (s : PeSection)
    → image_size < usize_mod
    → (check_header image_size h ≡ ok s) ↔ ((s ≡ to_section h) × IsInside image_size (to_section h))
unfolding check_header
check_header-ok image_size h s small = (sound, complete)
  where
    sound :
        check_header image_size h ≡ ok s → (s ≡ to_section h) × IsInside image_size (to_section h)
    sound e = (ground arith, ground arith)

    complete :
        (s ≡ to_section h) × IsInside image_size (to_section h) → check_header image_size h ≡ ok s
    complete (e, inside) = ground arith

check_headers-ok :
    (image_size : ℕ) (hs : List SectionHeader) (ss : List PeSection)
    → image_size < usize_mod
    → (check_headers image_size hs ≡ ok ss)
      ↔ ((ss ≡ map to_section hs) × All (IsInside image_size) (map to_section hs))
unfolding check_headers
check_headers-ok image_size [] ss small = ((λ e. (ground arith, tt)), λ p. ap ok (sym p.0))
check_headers-ok image_size (h ∷ hs) ss small = (
  (λ e.
      let (s, first, more) = >>=-eq-ok (check_header image_size h) _ e in
      let (rest, later, whole) = >>=-eq-ok (check_headers image_size hs) _ more in
      let (s_is, inside) = (check_header-ok image_size h s small).0 first in
      let (rest_is, all_inside) = (check_headers-ok image_size hs rest small).0 later in
      (cc, (inside, all_inside))),
  λ p.
      rw
        (
          (check_header-ok image_size h (to_section h) small).1 (refl, p.1.0),
          (check_headers-ok image_size hs (map to_section hs) small).1 (refl, p.1.1),
        )
        (ap ok (sym p.0)),
)

-- The part of `validate_pe_sections` behind the checks of the headers.
abbrev pub section_checks : PeHeaders → Result ScanError (List PeSection)
section_checks parsed = check_headers parsed.size_of_image parsed.section_headers >>= λ sections.
    check_overlaps sections >> ok sections

section_checks-ok :
    (parsed : PeHeaders) (sections : List PeSection)
    → parsed.size_of_image < usize_mod
    → (section_checks parsed ≡ ok sections) ↔ (
        All (IsInside parsed.size_of_image) (map to_section parsed.section_headers)
        × AreLaidOut (map to_section parsed.section_headers)
        × (sections ≡ map to_section parsed.section_headers))
section_checks-ok parsed sections small =
    let headers = check_headers-ok parsed.size_of_image parsed.section_headers in
    (
      (λ e.
          let (found, checked, rest) = >>=-eq-ok (check_headers _ parsed.section_headers) _ e in
          let (found_is, inside) = (headers found small).0 checked in
          let (u, apart, same) = >>=-eq-ok (check_overlaps found) _ rest in
          (inside, rw found_is at ((check_overlaps-ok found).0 apart), cc)),
      λ p.
          rw ((headers (map to_section parsed.section_headers) small).1 (refl, p.0))
            (rw ((check_overlaps-ok _).1 p.1) (ap ok (sym p.2))),
    )

pub header_checks :
    (parsed : PeHeaders) (module_size : ℕ) (sections : List PeSection)
    → validate_pe_sections parsed module_size ≡ ok sections
    → (parsed.is_64bit ≡ false)
      × (parsed.is_i386 ≡ true)
      × (parsed.is_dll ≡ true)
      × (1 ≤ length parsed.section_headers)
      × (length parsed.section_headers ≤ 96)
      × (0 < parsed.size_of_image)
      × (parsed.size_of_image ≡ module_size)
      × (section_checks parsed ≡ ok sections)
unfolding validate_pe_sections
header_checks parsed module_size sections e = ground arith

header_checks_pass :
    (parsed : PeHeaders) (module_size : ℕ)
    → IsAcceptable parsed module_size
    → validate_pe_sections parsed module_size ≡ section_checks parsed
unfolding validate_pe_sections
header_checks_pass parsed module_size a = ground arith

-- For an image size that fits a `usize`, the sections are accepted exactly when the image is a
-- 32-bit DLL for i386 of the mapped size, with one to 96 sections, all inside the image and no two
-- of them with an address in common; they are then the sections of the headers, in order.
pub validate_pe_sections_iff :
    (parsed : PeHeaders) (module_size : ℕ) (sections : List PeSection)
    → parsed.size_of_image < usize_mod
    → (validate_pe_sections parsed module_size ≡ ok sections)
      ↔ (IsAcceptable parsed module_size × (sections ≡ map to_section parsed.section_headers))
validate_pe_sections_iff parsed module_size sections small = (
  (λ e.
      let (is_32bit, for_i386, dll, some_sections, few_sections, not_empty, same_size, rest) =
        header_checks parsed module_size sections e in
      let (inside, laid_out, found) = (section_checks-ok parsed sections small).0 rest in
      (
        record {
          is_32bit = is_32bit;
          for_i386 = for_i386;
          dll = dll;
          some_sections = some_sections;
          few_sections = few_sections;
          not_empty = not_empty;
          same_size = same_size;
          inside = inside;
          laid_out = laid_out;
        },
        found,
      )),
  λ p.
      header_checks_pass parsed module_size p.0
      ∙ (section_checks-ok parsed sections small).1 (p.0.inside, p.0.laid_out, p.1),
)
