-- ===== src/Patches/Alike.antt =====
-- One match that `find_signature_target` of src/patches/mod.rs judges, in one image at two bases.
-- The bytes of the section are as many as its size, and end below the end of the address space.
use fc2_systemdetection.Memory.Checked.{
  classify_bytes, read_bytes, validate_bytes, validate_lengths,
}
use fc2_systemdetection.Memory.Os.{Machine, Os}
use fc2_systemdetection.Patches.Error.{
  Rejection, bytes_rejected, target_leaves_section, target_overflow,
}
use fc2_systemdetection.Patches.Target.{judge_match}
use fc2_systemdetection.Prelude.{
  All, All-Member, All-map, Bool, Bool-cases, List, Option-cases, Result, Result-cases, any, ap,
  arith, checked_add, checked_add-eq-some, checked_sub, err, false, inl, inr, length, le→leb,
  list_eq, none, ok, refl, some, true, usize_mod, ℕ, ◌+◌, ◌<◌, ◌∙◌, ◌≡◌, ◌≤◌,
}
use fc2_systemdetection.Scan.Complete.{checked_add_fits}
use fc2_systemdetection.Scan.Error.{ScanScope}
use fc2_systemdetection.Scan.Image.{
  LoadedSection, ModuleImage, contains_relative_target, holds_target,
}
use fc2_systemdetection.Scan.Rebase.{EndsBelow}
use fc2_systemdetection.Scan.Search.{InScope, contains_relative_target-inside}

abbrev pub FitsAt : ℕ → LoadedSection → Type 0
FitsAt base s =
    (length s.bytes ≡ s.metadata.size) × (base + s.metadata.rva + s.metadata.size < usize_mod)

pub FitsAt-EndsBelow :
    (base : ℕ) (ss : List LoadedSection) → All (FitsAt base) ss → All (EndsBelow base) ss
FitsAt-EndsBelow base ss = All-map ss (λ s fits. omega (arith, fits.0, fits.1))

sub_base : (base x : ℕ) → checked_sub (base + x) base ≡ some x
sub_base base x = rw (le→leb base (base + x) (omega arith)) (ap some (omega arith))

-- Both are values, or both are errors.
abbrev pub BothEnd : {E A B : Type 0} → (A → B → Type 0) → Result E A → Result E B → Type 0
BothEnd Related (ok a) (ok b) = Related a b
BothEnd Related (ok a) (err e) = ⊥
BothEnd Related (err e) (ok b) = ⊥
BothEnd Related (err d) (err e) = Unit

module _ {Pages : Type 0} ⦃os : Os Pages⦄ (m1 m2 : Machine Pages)
    (expected replacement : List ℕ) where
  -- Two addresses at which the same bytes are read.
  pub record ReadAlike (a1 a2 : ℕ) : Type 0 where
    pub bytes : List ℕ
    pub first : read_bytes m1 a1 (length expected) ≡ ok bytes
    pub second : read_bytes m2 a2 (length expected) ≡ ok bytes

  pub validate_alike :
      (a1 a2 : ℕ)
      → ReadAlike a1 a2
      → BothEnd
          (λ s t. Unit)
          (validate_bytes m1 a1 expected replacement)
          (validate_bytes m2 a2 expected replacement)
  unfolding validate_bytes classify_bytes
  validate_alike a1 a2 r = elim (Result-cases (validate_lengths expected replacement)) [
    | inr (e, bad) ↦ rw (bad, validate_bytes) tt
    | inl (u, good) ↦ elim (Bool-cases (list_eq r.bytes replacement)) [
      | inl already ↦ rw (good, r.first, r.second, validate_bytes) (rw (already, classify_bytes) tt)
      | inr differs ↦ elim (Bool-cases (list_eq r.bytes expected)) [
        | inl found ↦
            rw (good, r.first, r.second, validate_bytes) (rw (differs, found, classify_bytes) tt)
        | inr other ↦
            rw (good, r.first, r.second, validate_bytes) (rw (differs, other, classify_bytes) tt)
      ]
    ]
  ]

-- The range lies in one section of the scope.
pub record InSection (image : ModuleImage) (scope : ScanScope) (rva n : ℕ) : Type 0 where
  pub section : LoadedSection
  pub in_scope : InScope image scope section
  pub rva_from : section.metadata.rva ≤ rva
  pub rva_to : rva + n ≤ section.metadata.rva + section.metadata.size

-- The image at a base.
abbrev pub at_base : ModuleImage → ℕ → ModuleImage
at_base image base = record image { base = base }

-- The test of `contains_relative_target`, on offsets from the base.
unfoldable pub rva_contains : ModuleImage → ScanScope → ℕ → ℕ → ℕ → Bool
rva_contains image scope match_rva target_rva n = elim (checked_add target_rva n) [
  | none ↦ false
  | some target_end ↦ any (holds_target match_rva target_rva target_end scope) image.sections
]

contains_at :
    (image : ModuleImage) (scope : ScanScope) (base x y n : ℕ)
    → contains_relative_target (at_base image base) (base + x) (base + y) n scope
      ≡ rva_contains image scope x y n
unfolding contains_relative_target rva_contains
contains_at image scope base x y n =
    rw (sub_base base x, contains_relative_target) (rw (sub_base base y) refl)

-- A target inside a section does not overflow.
pub inside_fits :
    (image : ModuleImage) (scope : ScanScope) (offset : ℕ) (expected : List ℕ) (base x : ℕ)
    → rva_contains image scope x (x + offset) (length expected) ≡ true
    → All (FitsAt base) image.sections
    → (checked_add (base + x) offset ≡ some (base + (x + offset)))
      × InSection image scope (x + offset) (length expected)
inside_fits image scope offset expected base x inside fits =
    let t =
      contains_relative_target-inside (at_base image base) (base + x) (base + (x + offset))
        (length expected) scope
        (contains_at image scope base x (x + offset) (length expected) ∙ inside) in
    let room = All-Member (FitsAt base) image.sections t.section fits t.in_scope.listed in
    let e : base + x + offset ≡ base + (x + offset) = omega arith in
    (
      checked_add_fits (base + x) offset (omega (arith, t.target_to, room.1)) ∙ ap some e,
      record {
        section = t.section;
        in_scope = record { listed = t.in_scope.listed; scoped = t.in_scope.scoped };
        rva_from = omega (arith, t.target_from);
        rva_to = omega (arith, t.target_to);
      },
    )

module _ {Pages : Type 0} ⦃os : Os Pages⦄ (image : ModuleImage) (scope : ScanScope) (offset : ℕ)
    (expected replacement : List ℕ) where
  pub judge_outside :
      (m : Machine Pages) (base x : ℕ)
      → rva_contains image scope x (x + offset) (length expected) ≡ false
      → (e : Rejection) × (judge_match m
            (at_base image base)
            scope
            offset
            expected
            replacement
            (base + x)
          ≡ err e)
  unfolding judge_match
  judge_outside m base x elsewhere = elim (Option-cases (checked_add (base + x) offset)) [
    | inl past ↦ (target_overflow (base + x), rw (past, judge_match) refl)
    | inr (target, placed) ↦
        let target_is : target ≡ base + (x + offset) =
          omega (arith, (checked_add-eq-some (base + x) offset placed).0) in
        (
          target_leaves_section (base + x) target,
          rw (placed, judge_match)
              (rw
                (ap
                    (λ t.
                      contains_relative_target (at_base image base) (base + x) t (length expected)
                        scope)
                    target_is
                  ∙ contains_at image scope base x (x + offset) (length expected)
                  ∙ elsewhere)
                refl),
        )
  ]

  pub judge_inside :
      (m : Machine Pages) (base x : ℕ)
      → rva_contains image scope x (x + offset) (length expected) ≡ true
      → checked_add (base + x) offset ≡ some (base + (x + offset))
      → judge_match m (at_base image base) scope offset expected replacement (base + x)
        ≡ (elim (validate_bytes m (base + (x + offset)) expected replacement) [
          | ok state ↦ ok (base + (x + offset))
          | err error ↦ err (bytes_rejected error)
        ])
  unfolding judge_match
  judge_inside m base x inside placed =
      rw (placed, judge_match)
        (rw (contains_at image scope base x (x + offset) (length expected) ∙ inside) refl)
