-- ===== src/Scan/Rebase.antt =====
-- The searches of src/patches/sigscan.rs in one image at two bases.
use fc2_systemdetection.Prelude.{
  All, Bool-cases, List, Member, [], ap, ap₂, arith, if◌then◌else◌, inl, inr, length, map, not,
  refl, sym, usize_mod, ℕ, ◌++◌, ◌+◌, ◌<◌, ◌∙◌, ◌∷◌, ◌≡◌,
}
use fc2_systemdetection.Scan.Complete.{checked_add_fits}
use fc2_systemdetection.Scan.Error.{ScanScope}
use fc2_systemdetection.Scan.Find.{find_offsets_iff}
use fc2_systemdetection.Scan.Image.{LoadedSection, scan_sections, section_matches}
use fc2_systemdetection.Scan.Pattern.{Pattern, find_offsets, len}
use fc2_systemdetection.Scan.Sections.{is_in_scope}

-- The matches as offsets from the base.
unfoldable pub scan_rvas : List LoadedSection → Pattern → ScanScope → List ℕ
scan_rvas [] pattern scope = []
scan_rvas (s ∷ ss) pattern scope =
    let rest = scan_rvas ss pattern scope in
    if not (is_in_scope scope s.metadata)
    then rest
    else map (λ offset. s.metadata.rva + offset) (find_offsets pattern s.bytes) ++ rest

All-Member_of :
    {A : Type 0} (P : A → Type 0) (xs : List A) → ((x : A) → Member x xs → P x) → All P xs
All-Member_of P [] h = tt
All-Member_of P (x ∷ xs) h = (h x (inl refl), All-Member_of P xs (λ y there. h y (inr there)))

map-append : {A B : Type 0} (f : A → B) (xs ys : List A) → map f (xs ++ ys) ≡ map f xs ++ map f ys
map-append f [] ys = refl
map-append f (x ∷ xs) ys = ap (λ t. f x ∷ t) (map-append f xs ys)

map-map :
    {A B C : Type 0} (f : A → B) (g : B → C) (h : A → C) (xs : List A)
    → ((x : A) → g (f x) ≡ h x)
    → map g (map f xs) ≡ map h xs
map-map f g h [] same = refl
map-map f g h (x ∷ xs) same = ap₂ ◌∷◌ (same x) (map-map f g h xs same)

section_matches-map :
    (start : ℕ) (offsets : List ℕ)
    → All (λ offset. start + offset < usize_mod) offsets
    → section_matches start offsets ≡ map (λ offset. start + offset) offsets
unfolding section_matches
section_matches-map start [] fits = refl
section_matches-map start (offset ∷ offsets) (here, fits) =
    rw (checked_add_fits start offset here, section_matches)
      (ap (λ t. (start + offset) ∷ t) (section_matches-map start offsets fits))

-- The bytes of the section end below the end of the address space.
abbrev pub EndsBelow : ℕ → LoadedSection → Type 0
EndsBelow base s = base + s.metadata.rva + length s.bytes < usize_mod

module _ (pattern : Pattern) (scope : ScanScope) (positive : 0 < len pattern) where
  offsets_fit :
      (start : ℕ) (bytes : List ℕ)
      → start + length bytes < usize_mod
      → All (λ offset. start + offset < usize_mod) (find_offsets pattern bytes)
  offsets_fit start bytes fits = All-Member_of _ (find_offsets pattern bytes) λ offset there.
      let o = (find_offsets_iff pattern bytes offset positive).0 there in omega (arith, o.inside)

  pub scan_sections-map :
      (base : ℕ) (ss : List LoadedSection)
      → All (EndsBelow base) ss
      → scan_sections base ss pattern scope ≡ map (λ rva. base + rva) (scan_rvas ss pattern scope)
  unfolding scan_sections scan_rvas
  scan_sections-map base [] fits = refl
  scan_sections-map base (s ∷ ss) (here, fits) =
      let rest = scan_sections-map base ss fits in
      let rva = s.metadata.rva in
      let offsets = find_offsets pattern s.bytes in
      elim (Bool-cases (is_in_scope scope s.metadata)) [
        | inr other ↦ rw (other, scan_sections, scan_rvas) rest
        | inl wanted ↦
            rw (wanted, scan_sections, scan_rvas)
              (rw (checked_add_fits base rva (omega (arith, here))) (
                ap₂ ◌++◌
                  (section_matches-map (base + rva) offsets (offsets_fit (base + rva) s.bytes here)
                    ∙ sym (
                        map-map (λ offset. rva + offset) (λ r. base + r)
                          (λ offset. base + rva + offset) offsets (λ offset. omega arith)))
                  rest
                ∙ sym (
                    map-append (λ r. base + r) (map (λ offset. rva + offset) offsets)
                      (scan_rvas ss pattern scope))))
      ]
