-- ===== src/Scan/Snapshot.antt =====
-- The image that `ModuleImage::from_module` of src/patches/sigscan.rs reads.
use fc2_systemdetection.Memory.Bytes.{peek}
use fc2_systemdetection.Memory.Os.{Machine, Os}
use fc2_systemdetection.Patches.Plan.{validated}
use fc2_systemdetection.Prelude.{
  >>=-eq-ok, All, Bool-cases, List, [], arith, checked_add, checked_add-eq-some, inl, inr, is_empty,
  map, map_err, not, ok, ok-injective, ok_or, ok_or-ok, refl, subst, sym, usize_mod, ℕ, ◌&&◌, ◌+◌,
  ◌<◌, ◌==◌, ◌||◌, ◌∷◌, ◌≡◌, ◌≢◌,
}
use fc2_systemdetection.Scan.Error.{headers_rejected, invalid_pe, unreadable_section}
use fc2_systemdetection.Scan.Image.{
  LoadedSection, ModuleImage, from_module, load_sections, read_image,
}
use fc2_systemdetection.Scan.Layout.{
  AreApart, AreLaidOut, IsInside, header_checks, validate_pe_sections_iff,
}
use fc2_systemdetection.Scan.Range.{Portex, read_at, validate_readable_range}
use fc2_systemdetection.Scan.Sections.{PeSection, validate_pe_sections}

-- A loaded section holds the bytes that memory has at its address.
pub record IsLoaded {Pages : Type 0} (m : Machine Pages) (base size : ℕ) (s : LoadedSection)
    : Type 0 where
  pub content : s.bytes ≡ peek m.bytes (base + s.metadata.rva) s.metadata.size
  pub address_fits : base + s.metadata.rva < usize_mod
  pub not_empty : 0 < s.metadata.size
  pub inside : IsInside size s.metadata

pub record IsSnapshot {Pages : Type 0} (m : Machine Pages) (image : ModuleImage) : Type 0 where
  pub base_set : 0 < image.base
  pub loaded : All (IsLoaded m image.base image.size) image.sections
  pub some_sections : image.sections ≢ []
  pub laid_out : AreLaidOut (map (λ s. s.metadata) image.sections)

-- The loaded sections are some of the given ones, in order, each with its bytes.
data Loads {Pages : Type 0} (m : Machine Pages) (base : ℕ)
    : List PeSection → List LoadedSection → Type 0 where
  done : Loads m base [] []
  skip :
      {s : PeSection} {ss : List PeSection} {ls : List LoadedSection}
      → Loads m base ss ls
      → Loads m base (s ∷ ss) ls
  keep :
      {s : PeSection} {ss : List PeSection} {l : LoadedSection} {ls : List LoadedSection}
      → l.metadata ≡ s
      → l.bytes ≡ peek m.bytes (base + s.rva) s.size
      → base + s.rva < usize_mod
      → 0 < s.size
      → Loads m base ss ls
      → Loads m base (s ∷ ss) (l ∷ ls)

-- The sections of loaded ones.
abbrev metadata_of : List LoadedSection → List PeSection
metadata_of = map (λ s. s.metadata)

module _ {Pages : Type 0} {m : Machine Pages} {base : ℕ} where
  Loads-All :
      (P : PeSection → Type 0) {ss : List PeSection} {ls : List LoadedSection}
      → Loads m base ss ls
      → All P ss
      → All P (metadata_of ls)
  Loads-All P done all = tt
  Loads-All P (skip t) (p, ps) = Loads-All P t ps
  Loads-All P (keep is_s content fits full t) (p, ps) = (subst P (sym is_s) p, Loads-All P t ps)

  Loads-AreLaidOut :
      {ss : List PeSection} {ls : List LoadedSection}
      → Loads m base ss ls
      → AreLaidOut ss
      → AreLaidOut (metadata_of ls)
  Loads-AreLaidOut done all = tt
  Loads-AreLaidOut (skip t) (a, as') = Loads-AreLaidOut t as'
  Loads-AreLaidOut (keep {s} {ss} {l} {ls} is_s content fits full t) (a, as') = (
    subst (λ x. All (AreApart x) (metadata_of ls)) (sym is_s) (Loads-All (AreApart s) t a),
    Loads-AreLaidOut t as',
  )

  Loads-IsLoaded :
      (size : ℕ) {ss : List PeSection} {ls : List LoadedSection}
      → Loads m base ss ls
      → All (IsInside size) ss
      → All (IsLoaded m base size) ls
  Loads-IsLoaded size done all = tt
  Loads-IsLoaded size (skip t) (a, as') = Loads-IsLoaded size t as'
  Loads-IsLoaded size (keep is_s content fits full t) (a, as') = (
    record {
      content = rw is_s content;
      address_fits = rw is_s fits;
      not_empty = rw is_s full;
      inside = rw is_s a;
    },
    Loads-IsLoaded size t as',
  )

module _ {Pages : Type 0} ⦃os : Os Pages⦄ where
  load_sections-Loads :
      (m : Machine Pages) (base : ℕ) (ss : List PeSection) {loaded : List LoadedSection}
      → load_sections m base ss ≡ ok loaded
      → Loads m base ss loaded
  unfolding load_sections
  load_sections-Loads m base [] {loaded = []} h = done
  load_sections-Loads m base [] {loaded = l ∷ ls} h = cc
  load_sections-Loads m base (s ∷ ss) {loaded} h =
      elim (Bool-cases (s.size == 0 || (not s.readable && not s.executable))) [
        | inl skipped ↦ skip (load_sections-Loads m base ss (rw (skipped, load_sections) at h))
        | inr wanted ↦
            let (address, placed, more) =
              >>=-eq-ok (ok_or _ (checked_add base s.rva)) _ (rw (wanted, load_sections) at h) in
            let (u, readable, later) =
              >>=-eq-ok
                (map_err (unreadable_section s.name)
                  (validate_readable_range m.pages address s.size))
                _ more in
            let (rest, found, whole) = >>=-eq-ok (load_sections m base ss) _ later in
            let (address_is, fits) =
              checked_add-eq-some base s.rva (ok_or-ok _ (checked_add base s.rva) placed) in
            let l : LoadedSection = record { metadata = s; bytes = peek m.bytes address s.size } in
            let content : l.bytes ≡ peek m.bytes (base + s.rva) s.size = rw address_is refl in
            subst (Loads m base (s ∷ ss)) (ok-injective whole)
              (keep {l = l} refl content fits (ground arith) (load_sections-Loads m base ss found))
      ]

  read_image-IsSnapshot :
      {PortexError : Type 0} (portex : Portex PortexError) (m : Machine Pages) (base size : ℕ)
      (image : ModuleImage)
      → 0 < base
      → size < usize_mod
      → read_image portex m base size ≡ ok image
      → IsSnapshot m image
  unfolding read_image
  read_image-IsSnapshot portex m base size image set small h =
      let (headers, parsed, validated) =
        >>=-eq-ok
          (map_err (λ e. invalid_pe (headers_rejected (portex.to_text e)))
            (portex.read_from (read_at portex m base size) size))
          _ h in
      let (sections, accepted, loading) =
        >>=-eq-ok (validate_pe_sections headers size) _ validated in
      let (loaded, found, whole) = >>=-eq-ok (load_sections m base sections) _ loading in
      let size_is = (header_checks headers size sections accepted).6 in
      let (acceptable, sections_are) =
        (validate_pe_sections_iff headers size sections (rw size_is small)).0 accepted in
      let loads = load_sections-Loads m base sections found in
      let inside : All (IsInside size) sections =
        rw sections_are (rw size_is at acceptable.inside) in
      let laid_out : AreLaidOut sections = rw sections_are acceptable.laid_out in
      elim (Bool-cases (is_empty loaded)) [
        | inl nothing ↦ absurd (ground (arith, whole))
        | inr something ↦ subst (IsSnapshot m) (ok-injective (rw something at whole)) (record {
          base_set = set;
          loaded = Loads-IsLoaded size loads inside;
          some_sections = ground arith;
          laid_out = Loads-AreLaidOut loads laid_out;
        })
      ]

  -- For a module size that fits a `usize`, an image that `from_module` reads is a snapshot:
  -- each of its sections is not empty, lies inside the image, apart from the others, and has the
  -- bytes that memory has at its address.
  pub from_module-IsSnapshot :
      {PortexError : Type 0} (portex : Portex PortexError) (m : Machine Pages) (base size : ℕ)
      (image : ModuleImage)
      → size < usize_mod
      → from_module portex m (ok (base, size)) ≡ ok image
      → IsSnapshot m image
  unfolding from_module
  from_module-IsSnapshot portex m base size image small h =
      elim (Bool-cases (base == 0 || size == 0)) [
        | inl nothing ↦ absurd (ground (arith, h))
        | inr something ↦
            read_image-IsSnapshot portex m base size image (ground arith) small (rw something at h)
      ]
