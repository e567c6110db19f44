-- ===== src/Scan/Offline.antt =====
-- The image that `from_pe_file` of src/patches/sigscan.rs makes of a file, and the one that
-- `from_module` makes of the module that the loader has made of it.
use fc2_systemdetection.Memory.Bytes.{Bytes, length-peek, peek}
use fc2_systemdetection.Memory.Os.{Machine, Os}
use fc2_systemdetection.Prelude.{
  All, Bool, Bool-cases, List, [], ap, arith, checked_add, false, get_elem?, inl, inr, is_empty,
  length, map, not, ok, refl, some, suc, sym, true, usize_mod, zero, ℕ, ◌&&◌, ◌+◌, ◌<◌, ◌==◌, ◌||◌,
  ◌∙◌, ◌∷◌, ◌≡◌, ◌≢◌, ◌≤◌, ◌⊎◌,
}
use fc2_systemdetection.Scan.Complete.{checked_add_fits}
use fc2_systemdetection.Scan.FileImage.{FileMappedModule, from_pe_file, loaded_sections}
use fc2_systemdetection.Scan.Image.{LoadedSection, from_module, load_sections, read_image}
use fc2_systemdetection.Scan.Layout.{IsInside, validate_pe_sections_iff}
use fc2_systemdetection.Scan.Mapped.{from_pe_file-IsFileImage}
use fc2_systemdetection.Scan.Range.{Portex, read_at, validate_readable_range}
use fc2_systemdetection.Scan.Sections.{PeHeaders, PeSection, to_section, validate_pe_sections}

-- Memory from `base` on holds the mapping, but for the offsets that the loader has changed.
abbrev pub HoldsMapping : Bytes → ℕ → ℕ → Bytes → (ℕ → Bool) → Type 0
HoldsMapping mem base size mapping changed =
    (i : ℕ) → i < size → (changed i ≡ true) ⊎ (mem (base + i) ≡ mapping i)

-- A section of a file as it is found in memory: it is described alike, is as long, and has the
-- same byte at each offset that the loader has not changed.
pub record IsLoadedAs (changed : ℕ → Bool) (l found : LoadedSection) : Type 0 where
  pub described : found.metadata ≡ l.metadata
  pub as_long : length found.bytes ≡ length l.bytes
  pub byte :
      (i : ℕ)
      → (changed (l.metadata.rva + i) ≡ true) ⊎ (get_elem? found.bytes i ≡ get_elem? l.bytes i)

abbrev pub AreLoadedAs : (ℕ → Bool) → List LoadedSection → List LoadedSection → Type 0
AreLoadedAs changed [] [] = Unit
AreLoadedAs changed (l ∷ ls) (f ∷ fs) = IsLoadedAs changed l f × AreLoadedAs changed ls fs
AreLoadedAs changed _ _ = ⊥

-- Two ranges that hold the same but where the loader has changed them.
peek_unchanged :
    (mem mapping : Bytes) (changed : ℕ → Bool) (base a n i : ℕ)
    → ((j : ℕ) → j < a + n → (changed j ≡ true) ⊎ (mem (base + j) ≡ mapping j))
    → (changed (a + i) ≡ true)
      ⊎ (get_elem? (peek mem (base + a) n) i ≡ get_elem? (peek mapping a n) i)
peek_unchanged mem mapping changed base a zero i same = inr refl
peek_unchanged mem mapping changed base a (suc n) zero same = elim (same a (omega arith)) [
  | inl there ↦ inl (let e : a + 0 ≡ a = omega arith in rw e there)
  | inr equal ↦ inr (ap some equal)
]
peek_unchanged mem mapping changed base a (suc n) (suc i) same =
    let e : base + a + 1 ≡ base + (a + 1) = omega arith in
    let e' : a + suc i ≡ a + 1 + i = omega arith in
    rw (e, e') (peek_unchanged mem mapping changed base (a + 1) n i (λ j hi. same j (omega arith)))

-- The section's range can be read in memory.
abbrev pub IsReadableAt :
    {Pages : Type 0} ⦃os : Os Pages⦄ → Machine Pages → ℕ → LoadedSection → Type 0
IsReadableAt m base l =
    validate_readable_range m.pages (base + l.metadata.rva) l.metadata.size ≡ ok tt

module _ {Pages : Type 0} ⦃os : Os Pages⦄ (m : Machine Pages) (base size : ℕ) (mapping : Bytes)
    (changed : ℕ → Bool) where
  section-IsLoadedAs :
      (s : PeSection)
      → HoldsMapping m.bytes base size mapping changed
      → s.rva + s.size ≤ size
      → IsLoadedAs changed
          (record { metadata = s; bytes = peek mapping s.rva s.size })
          (record { metadata = s; bytes = peek m.bytes (base + s.rva) s.size })
  section-IsLoadedAs s holds inside = record {
    described = refl;
    as_long = length-peek m.bytes (base + s.rva) s.size ∙ sym (length-peek mapping s.rva s.size);
    byte = λ i.
        peek_unchanged m.bytes mapping changed base s.rva s.size i
          (λ j below. holds j (omega (arith, inside)));
  }

  load_sections-loaded :
      (ss : List PeSection)
      → base + size < usize_mod
      → HoldsMapping m.bytes base size mapping changed
      → All (IsInside size) ss
      → All (IsReadableAt m base) (loaded_sections mapping ss)
      → (found : List LoadedSection) × (load_sections m base ss ≡ ok found)
        × AreLoadedAs changed (loaded_sections mapping ss) found
  unfolding load_sections loaded_sections
  load_sections-loaded [] fits holds inside readable = ([], refl, tt)
  load_sections-loaded (s ∷ ss) fits holds (here, inside) readable =
      elim (Bool-cases (s.size == 0 || (not s.readable && not s.executable))) [
        | inl skipped ↦
            let left : (not (s.size == 0) && (s.readable || s.executable)) ≡ false = ground arith in
            rw (skipped, load_sections, left, loaded_sections)
              (load_sections-loaded ss fits holds inside (rw (left, loaded_sections) at readable))
        | inr wanted ↦
            let kept : (not (s.size == 0) && (s.readable || s.executable)) ≡ true = ground arith in
            let (here_readable, rest) = rw (kept, loaded_sections) at readable in
            let placed : checked_add base s.rva ≡ some (base + s.rva) =
              checked_add_fits base s.rva (omega (arith, here)) in
            let (found, done, alike) = load_sections-loaded ss fits holds inside rest in
            rw (wanted, load_sections, kept, loaded_sections)
              (
                record { metadata = s; bytes = peek m.bytes (base + s.rva) s.size } ∷ found,
                rw placed (rw here_readable (rw done refl)),
                (section-IsLoadedAs s holds here, alike),
              )
      ]

loaded-not_empty :
    (changed : ℕ → Bool) (ls fs : List LoadedSection)
    → AreLoadedAs changed ls fs
    → ls ≢ []
    → is_empty fs ≡ false
loaded-not_empty changed [] fs alike some_sections = absurd (some_sections refl)
loaded-not_empty changed (l ∷ ls) [] alike some_sections = absurd alike
loaded-not_empty changed (l ∷ ls) (f ∷ fs) alike some_sections = refl

-- Where memory holds the mapping that `from_pe_file` makes of a file, but for the offsets that the
-- loader has changed (headers, relocations, imports), Portex reads the headers of the file there,
-- and the sections can be read, `from_module` succeeds. Its image has that base, and the size and
-- the sections of the file's image in their order, each with the same description and length and
-- with the same byte at each offset that the loader has not changed.
pub from_module-from_pe_file :
    {Pages PortexError : Type 0} ⦃os : Os Pages⦄ (portex : Portex PortexError) (m : Machine Pages)
    (base heap : ℕ) (file : List ℕ) (headers : PeHeaders) (mapped : FileMappedModule)
    (changed : ℕ → Bool)
    → 0 < base
    → base + headers.size_of_image < usize_mod
    → portex.from_slice file ≡ ok headers
    → from_pe_file portex heap file ≡ ok mapped
    → HoldsMapping m.bytes base headers.size_of_image mapped.mapping changed
    → portex.read_from (read_at portex m base headers.size_of_image) headers.size_of_image
      ≡ ok headers
    → All (IsReadableAt m base) mapped.image.sections
    → (found : List LoadedSection) × (from_module portex m (ok (base, headers.size_of_image))
        ≡ ok (record { base = base; size = mapped.image.size; sections = found }))
      × AreLoadedAs changed mapped.image.sections found
unfolding from_module read_image
from_module-from_pe_file portex m base heap file headers mapped changed set fits parsed made holds
      read readable =
    let size = headers.size_of_image in
    let f =
      from_pe_file-IsFileImage portex heap file headers mapped parsed (omega (arith, fits)) made in
    let sections = map to_section headers.section_headers in
    let accepted : validate_pe_sections headers size ≡ ok sections =
      (validate_pe_sections_iff headers size sections (omega (arith, fits))).1
        (f.acceptable, refl) in
    let (found, loading, alike) =
      load_sections-loaded m base size mapped.mapping changed sections fits holds
        f.acceptable.inside (rw f.sections_are at readable) in
    let nonzero : (base == 0 || size == 0) ≡ false = ground (arith, f.acceptable.not_empty) in
    let some_loaded : is_empty found ≡ false =
      loaded-not_empty changed (loaded_sections mapped.mapping sections) found alike
        (λ nothing. f.some_sections (f.sections_are ∙ nothing)) in
    (
      found,
      rw nonzero (rw read (rw accepted (rw loading (rw some_loaded (rw f.size_is refl))))),
      rw f.sections_are alike,
    )
