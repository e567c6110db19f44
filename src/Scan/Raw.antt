-- ===== src/Scan/Raw.antt =====
-- The raw data that the loop of `from_pe_file` of src/patches/sigscan.rs copies.
-- What the file has for a section: its raw data, and zeros up to its size.
use fc2_systemdetection.Memory.Bytes.{Bytes, Disjoint, peek, peek-poke_apart, poke, poke-nil}
use fc2_systemdetection.Prelude.{
  >>=-eq-ok, All, Bool-cases, List, [], arith, checked_add, checked_add-eq-some, drop, inl, inr,
  length, length-drop, length-take, ltb, map, ok, ok-injective, ok_or, ok_or-ok, refl, sym, ℕ, ◌++◌,
  ◌-◌, ◌==◌, ◌∙◌, ◌∷◌, ◌≡◌,
}
use fc2_systemdetection.Scan.Blank.{peek-zeroed, peek_filled, zeros}
use fc2_systemdetection.Scan.FileImage.{map_section, map_sections, slice, zeroed}
use fc2_systemdetection.Scan.Layout.{AreApart, AreLaidOut}
use fc2_systemdetection.Scan.Sections.{SectionHeader, to_section}

abbrev pub section_content : List ℕ → SectionHeader → List ℕ
section_content file h =
    let raw = slice file h.pointer_to_raw_data h.size_of_raw_data in
    raw ++ zeros ((to_section h).size - length raw)

-- The section's range of the mapping is still zero.
abbrev pub IsBlank : Bytes → SectionHeader → Type 0
IsBlank mapping h = peek mapping h.virtual_address (to_section h).size ≡ zeros (to_section h).size

abbrev pub IsFilled : List ℕ → Bytes → SectionHeader → Type 0
IsFilled file mapping h =
    peek mapping h.virtual_address (to_section h).size ≡ section_content file h

-- What the loop's body does to the mapping, where it accepts the section.
record MapsOne (file : List ℕ) (h : SectionHeader) (mapping mapped : Bytes) : Type 0 where
  written :
      mapped ≡ poke mapping h.virtual_address (slice file h.pointer_to_raw_data h.size_of_raw_data)
  raw_whole : length (slice file h.pointer_to_raw_data h.size_of_raw_data) ≡ h.size_of_raw_data

map_section-MapsOne :
    (file : List ℕ) (image_size : ℕ) (h : SectionHeader) (mapping mapped : Bytes)
    → map_section file image_size (to_section h) h mapping ≡ ok mapped
    → MapsOne file h mapping mapped
unfolding map_section
map_section-MapsOne file image_size h mapping mapped e =
    elim (Bool-cases (h.size_of_raw_data == 0)) [
      | inl empty ↦
          let none_raw : h.size_of_raw_data ≡ 0 = ground arith in
          let same : mapping ≡ mapped = ok-injective (rw empty at e) in
          record {
            written = rw none_raw (sym same ∙ sym (poke-nil mapping h.virtual_address));
            raw_whole = rw none_raw refl;
          }
      | inr some_raw ↦ elim (Bool-cases (h.pointer_to_raw_data == 0)) [
        | inl at_zero ↦ absurd (ground arith)
        | inr placed ↦
            let (raw_end, raw_fits, e1) =
              >>=-eq-ok (ok_or _ (checked_add h.pointer_to_raw_data h.size_of_raw_data)) _
                (rw placed at (rw some_raw at e)) in
            elim (Bool-cases (ltb (length file) raw_end)) [
              | inl outside ↦ absurd (ground arith)
              | inr in_file ↦
                  let (mapped_end, mapped_fits, e2) =
                    >>=-eq-ok (ok_or _ (checked_add h.virtual_address h.size_of_raw_data)) _
                      (rw in_file at e1) in
                  let end_is =
                    (checked_add-eq-some h.pointer_to_raw_data h.size_of_raw_data (
                      ok_or-ok _ (checked_add h.pointer_to_raw_data h.size_of_raw_data)
                        raw_fits)).0 in
                  record {
                    written = ground (arith, e2);
                    raw_whole =
                        length-take h.size_of_raw_data (drop h.pointer_to_raw_data file)
                        ∙ ground (arith, length-drop h.pointer_to_raw_data file, end_is, in_file);
                  }
            ]
      ]
    ]

-- The range has no address in common with the section.
abbrev AvoidsSection : ℕ → ℕ → SectionHeader → Type 0
AvoidsSection a n h = Disjoint a n h.virtual_address (to_section h).size

module _ (file : List ℕ) (image_size : ℕ) where
  -- The write of one section lies in its range.
  one_apart :
      (h : SectionHeader) (mapping mapped : Bytes) (a n : ℕ)
      → MapsOne file h mapping mapped
      → AvoidsSection a n h
      → peek mapped a n ≡ peek mapping a n
  one_apart h mapping mapped a n one avoids = rw one.written (
      peek-poke_apart mapping a n h.virtual_address
        (slice file h.pointer_to_raw_data h.size_of_raw_data)
        (λ c i j. avoids c i (j.0, omega (arith, j.1, one.raw_whole))))

  one-IsFilled :
      (h : SectionHeader) (mapping mapped : Bytes)
      → MapsOne file h mapping mapped
      → IsBlank mapping h
      → IsFilled file mapped h
  one-IsFilled h mapping mapped one blank = rw one.written (
      peek_filled mapping h.virtual_address (to_section h).size
        (slice file h.pointer_to_raw_data h.size_of_raw_data) (omega (arith, one.raw_whole)) blank)

  map_sections_apart :
      (hs : List SectionHeader) (mapping mapped : Bytes) (a n : ℕ)
      → map_sections file image_size (map to_section hs) hs mapping ≡ ok mapped
      → All (AvoidsSection a n) hs
      → peek mapped a n ≡ peek mapping a n
  unfolding map_sections
  map_sections_apart [] mapping mapped a n e avoids = rw (ok-injective e) refl
  map_sections_apart (h ∷ hs) mapping mapped a n e (here, avoids) =
      let (next, first, rest) =
        >>=-eq-ok (map_section file image_size (to_section h) h mapping) _ e in
      map_sections_apart hs next mapped a n rest avoids
      ∙ one_apart h mapping next a n (map_section-MapsOne file image_size h mapping next first) here

  AreApart-AvoidsSection :
      (h : SectionHeader) (hs : List SectionHeader)
      → All (AreApart (to_section h)) (map to_section hs)
      → All (AvoidsSection h.virtual_address (to_section h).size) hs
  AreApart-AvoidsSection h [] apart = tt
  AreApart-AvoidsSection h (k ∷ ks) (apart, rest) = (apart, AreApart-AvoidsSection h ks rest)

  IsBlank-kept :
      (h : SectionHeader) (hs : List SectionHeader) (mapping mapped : Bytes)
      → MapsOne file h mapping mapped
      → All (AreApart (to_section h)) (map to_section hs)
      → All (IsBlank mapping) hs
      → All (IsBlank mapped) hs
  IsBlank-kept h [] mapping mapped one apart blank = tt
  IsBlank-kept h (k ∷ ks) mapping mapped one (apart, others) (blank, rest) = (
    one_apart h mapping mapped k.virtual_address (to_section k).size one (λ c i j. apart c j i)
        ∙ blank,
    IsBlank-kept h ks mapping mapped one others rest,
  )

  pub map_sections-IsFilled :
      (hs : List SectionHeader) (mapping mapped : Bytes)
      → AreLaidOut (map to_section hs)
      → All (IsBlank mapping) hs
      → map_sections file image_size (map to_section hs) hs mapping ≡ ok mapped
      → All (IsFilled file mapped) hs
  unfolding map_sections
  map_sections-IsFilled [] mapping mapped laid_out blank e = tt
  map_sections-IsFilled (h ∷ hs) mapping mapped (apart, laid_out) (here, blank) e =
      let (next, first, rest) =
        >>=-eq-ok (map_section file image_size (to_section h) h mapping) _ e in
      let one = map_section-MapsOne file image_size h mapping next first in
      (
        map_sections_apart hs next mapped h.virtual_address (to_section h).size rest
              (AreApart-AvoidsSection h hs apart)
            ∙ one-IsFilled h mapping next one here,
        map_sections-IsFilled hs next mapped laid_out
            (IsBlank-kept h hs mapping next one apart blank) rest,
      )

pub All-IsBlank : (hs : List SectionHeader) → All (IsBlank zeroed) hs
All-IsBlank [] = tt
All-IsBlank (h ∷ hs) = (peek-zeroed h.virtual_address (to_section h).size, All-IsBlank hs)
