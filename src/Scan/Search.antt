-- ===== src/Scan/Search.antt =====
-- What the searches of `ModuleImage` find: `scan`, `address_from_rva` and
-- `contains_relative_target`.
use fc2_systemdetection.Prelude.{
  Bool, Bool-cases, List, Member, Option-cases, [], any, ap, arith, checked_add,
  checked_add-eq-some, inl, inr, ok, refl, true, ℕ, ◌++◌, ◌+◌, ◌-◌, ◌<◌, ◌∙◌, ◌∷◌, ◌≡◌, ◌≤◌, ◌⊎◌,
}
use fc2_systemdetection.Scan.Error.{ScanScope}
use fc2_systemdetection.Scan.Find.{OccursAt, find_offsets_iff}
use fc2_systemdetection.Scan.Image.{
  LoadedSection, ModuleImage, address_from_rva, contains_relative_target, holds_range, holds_target,
  scan, scan_sections, section_matches,
}
use fc2_systemdetection.Scan.Pattern.{Pattern, find_offsets, len}
use fc2_systemdetection.Scan.Sections.{is_in_scope}

-- A section of the image in the given scope.
pub record InScope (image : ModuleImage) (scope : ScanScope) (s : LoadedSection) : Type 0 where
  pub listed : Member s image.sections
  pub scoped : is_in_scope scope s.metadata ≡ true

-- The pattern occurs in a section of the scope, at this address.
pub record IsMatch (image : ModuleImage) (pattern : Pattern) (scope : ScanScope) (address : ℕ)
    : Type 0 where
  pub section : LoadedSection
  pub offset : ℕ
  pub in_scope : InScope image scope section
  pub occurs : OccursAt pattern.bytes section.bytes offset
  pub address_is : address ≡ image.base + section.metadata.rva + offset

Member-append :
    {A : Type 0} (a : A) (xs ys : List A) → Member a (xs ++ ys) → Member a xs ⊎ Member a ys
Member-append a [] ys h = inr h
Member-append a (x ∷ xs) ys (inl e) = inl (inl e)
Member-append a (x ∷ xs) ys (inr h) = elim (Member-append a xs ys h) [
  | inl there ↦ inl (inr there)
  | inr there ↦ inr there
]

section_matches_sound :
    (start : ℕ) (offsets : List ℕ) (address : ℕ)
    → Member address (section_matches start offsets)
    → (offset : ℕ) × Member offset offsets × (address ≡ start + offset)
unfolding section_matches
section_matches_sound start [] address h = absurd h
section_matches_sound start (o ∷ os) address h = elim (Option-cases (checked_add start o)) [
  | inl past ↦
      let (offset, there, e) =
        section_matches_sound start os address (rw (past, section_matches) at h) in
      (offset, inr there, e)
  | inr (a, fits) ↦
      let either : (address ≡ a) ⊎ Member address (section_matches start os) =
        rw (fits, section_matches) at h in
      elim either [
        | inl here ↦ (o, inl refl, here ∙ (checked_add-eq-some start o fits).0)
        | inr later ↦
            let (offset, there, e) = section_matches_sound start os address later in
            (offset, inr there, e)
      ]
]

-- Where a match of `scan_sections` comes from.
record Origin (base : ℕ) (ss : List LoadedSection) (pattern : Pattern) (scope : ScanScope)
    (address : ℕ) : Type 0 where
  section : LoadedSection
  offset : ℕ
  listed : Member section ss
  scoped : is_in_scope scope section.metadata ≡ true
  found : Member offset (find_offsets pattern section.bytes)
  address_is : address ≡ base + section.metadata.rva + offset

Origin-cons :
    {base : ℕ} {ss : List LoadedSection} {pattern : Pattern} {scope : ScanScope} {address : ℕ}
    (s : LoadedSection)
    → Origin base ss pattern scope address
    → Origin base (s ∷ ss) pattern scope address
Origin-cons s o = record {
  section = o.section;
  offset = o.offset;
  listed = inr o.listed;
  scoped = o.scoped;
  found = o.found;
  address_is = o.address_is;
}

scan_sections-Origin :
    (base : ℕ) (ss : List LoadedSection) (pattern : Pattern) (scope : ScanScope) (address : ℕ)
    → Member address (scan_sections base ss pattern scope)
    → Origin base ss pattern scope address
unfolding scan_sections
scan_sections-Origin base [] pattern scope address h = absurd h
scan_sections-Origin base (s ∷ ss) pattern scope address h =
    elim (Bool-cases (is_in_scope scope s.metadata)) [
      | inr other ↦
          Origin-cons s
            (scan_sections-Origin base ss pattern scope address (rw (other, scan_sections) at h))
      | inl scoped ↦ elim (Option-cases (checked_add base s.metadata.rva)) [
        | inl past ↦ Origin-cons s (
            scan_sections-Origin base ss pattern scope address
              (rw (past, scan_sections) at (rw (scoped, scan_sections) at h)))
        | inr (start, fits) ↦
            let either =
              Member-append address (section_matches start (find_offsets pattern s.bytes))
                (scan_sections base ss pattern scope)
                (rw (fits, scan_sections) at (rw (scoped, scan_sections) at h)) in
            elim either [
              | inr later ↦ Origin-cons s (scan_sections-Origin base ss pattern scope address later)
              | inl here ↦
                  let (offset, found, e) = section_matches_sound start _ address here in
                  record {
                    section = s;
                    offset = offset;
                    listed = inl refl;
                    scoped = scoped;
                    found = found;
                    address_is =
                        e ∙ ap (λ n. n + offset) (checked_add-eq-some base s.metadata.rva fits).0;
                  }
            ]
      ]
    ]

-- Every address that `scan` returns is that of an occurrence of the pattern inside one section of
-- the scope.
pub scan-IsMatch :
    (image : ModuleImage) (pattern : Pattern) (scope : ScanScope) (address : ℕ)
    → 0 < len pattern
    → Member address (scan image pattern scope)
    → IsMatch image pattern scope address
unfolding scan
scan-IsMatch image pattern scope address positive h =
    let o = scan_sections-Origin image.base image.sections pattern scope address h in
    record {
      section = o.section;
      offset = o.offset;
      in_scope = record { listed = o.listed; scoped = o.scoped };
      occurs = (find_offsets_iff pattern o.section.bytes o.offset positive).0 o.found;
      address_is = o.address_is;
    }

pub any-exists :
    {A : Type 0} (p : A → Bool) (xs : List A)
    → any p xs ≡ true
    → (x : A) × Member x xs × (p x ≡ true)
any-exists p [] h = cc
any-exists p (x ∷ xs) h = elim (Bool-cases (p x)) [
  | inl here ↦ (x, inl refl, here)
  | inr other ↦ let (y, listed, holds) = any-exists p xs (rw other at h) in (y, inr listed, holds)
]

pub any-Member :
    {A : Type 0} (p : A → Bool) (xs : List A) (x : A) → Member x xs → p x ≡ true → any p xs ≡ true
any-Member p [] x h holds = absurd h
any-Member p (y ∷ ys) x (inl e) holds = rw (← e, holds) refl
any-Member p (y ∷ ys) x (inr h) holds = ground (arith, any-Member p ys x h holds)

-- The match and the whole target lie in one section of the scope.
pub record TargetInside (image : ModuleImage) (scope : ScanScope) (match target n : ℕ)
    : Type 0 where
  pub section : LoadedSection
  pub in_scope : InScope image scope section
  pub match_from : image.base + section.metadata.rva ≤ match
  pub match_below : match < image.base + section.metadata.rva + section.metadata.size
  pub target_from : image.base + section.metadata.rva ≤ target
  pub target_to : target + n ≤ image.base + section.metadata.rva + section.metadata.size

holds_target-true :
    (match_rva target_rva target_end : ℕ) (scope : ScanScope) (s : LoadedSection)
    → holds_target match_rva target_rva target_end scope s ≡ true
    → (is_in_scope scope s.metadata ≡ true)
      × (s.metadata.rva ≤ match_rva)
      × (match_rva < s.metadata.rva + s.metadata.size)
      × (s.metadata.rva ≤ target_rva)
      × (target_end ≤ s.metadata.rva + s.metadata.size)
unfolding holds_target
holds_target-true match_rva target_rva target_end scope s h =
    elim (Bool-cases (is_in_scope scope s.metadata)) [
      | inr other ↦ absurd (ground (arith, h))
      | inl scoped ↦ (scoped, ground arith, ground arith, ground arith, ground arith)
    ]

relative_parts :
    (image : ModuleImage) (match target n : ℕ) (scope : ScanScope)
    → contains_relative_target image match target n scope ≡ true
    → (image.base ≤ match)
      × (image.base ≤ target)
      × (any
            (holds_target
              (match - image.base)
              (target - image.base)
              (target - image.base + n)
              scope)
            image.sections
          ≡ true)
unfolding contains_relative_target
relative_parts image match target n scope h = ground arith

-- A relative target is accepted only if it lies, in its whole length, in the section of the scope
-- that holds the match.
pub contains_relative_target-inside :
    (image : ModuleImage) (match target n : ℕ) (scope : ScanScope)
    → contains_relative_target image match target n scope ≡ true
    → TargetInside image scope match target n
contains_relative_target-inside image match target n scope h =
    let (match_above, target_above, some_section) = relative_parts image match target n scope h in
    let (s, listed, holds) = any-exists _ image.sections some_section in
    let (scoped, a, b, c, d) = holds_target-true _ _ _ scope s holds in
    record {
      section = s;
      in_scope = record { listed = listed; scoped = scoped };
      match_from = omega arith;
      match_below = omega arith;
      target_from = omega arith;
      target_to = omega arith;
    }

-- The range of `n` bytes at the RVA lies in one section of the scope, and inside the image.
pub record RvaInside (image : ModuleImage) (scope : ScanScope) (rva n : ℕ) : Type 0 where
  pub section : LoadedSection
  pub in_scope : InScope image scope section
  pub rva_from : section.metadata.rva ≤ rva
  pub rva_to : rva + n ≤ section.metadata.rva + section.metadata.size
  pub in_image : rva + n ≤ image.size

holds_range-true :
    (rva end : ℕ) (scope : ScanScope) (s : LoadedSection)
    → holds_range rva end scope s ≡ true
    → (is_in_scope scope s.metadata ≡ true)
      × (s.metadata.rva ≤ rva)
      × (end ≤ s.metadata.rva + s.metadata.size)
unfolding holds_range
holds_range-true rva end scope s h = elim (Bool-cases (is_in_scope scope s.metadata)) [
  | inr other ↦ absurd (ground (arith, h))
  | inl scoped ↦ (scoped, ground arith, ground arith)
]

address_parts :
    (image : ModuleImage) (rva n : ℕ) (scope : ScanScope) (address : ℕ)
    → address_from_rva image rva n scope ≡ ok address
    → (address ≡ image.base + rva)
      × (rva + n ≤ image.size)
      × (any (holds_range rva (rva + n) scope) image.sections ≡ true)
unfolding address_from_rva
address_parts image rva n scope address h = ground arith

-- An RVA is turned into an address only if its whole range lies in one section of the scope.
pub address_from_rva-inside :
    (image : ModuleImage) (rva n : ℕ) (scope : ScanScope) (address : ℕ)
    → address_from_rva image rva n scope ≡ ok address
    → (address ≡ image.base + rva) × RvaInside image scope rva n
address_from_rva-inside image rva n scope address h =
    let (address_is, in_image, some_section) = address_parts image rva n scope address h in
    let (s, listed, holds) = any-exists _ image.sections some_section in
    let (scoped, a, b) = holds_range-true _ _ scope s holds in
    (
      address_is,
      record {
        section = s;
        in_scope = record { listed = listed; scoped = scoped };
        rva_from = a;
        rva_to = b;
        in_image = in_image;
      },
    )
