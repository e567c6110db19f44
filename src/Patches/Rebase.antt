-- ===== src/Patches/Rebase.antt =====
-- `find_signature_target` of src/patches/mod.rs in one image that stands at two bases.
use fc2_systemdetection.Scan.Pattern
use fc2_systemdetection.Memory.Checked.{WriteState}
use fc2_systemdetection.Memory.Os.{Machine, Os}
use fc2_systemdetection.Patches.Alike.{
  BothEnd, FitsAt, FitsAt-EndsBelow, InSection, ReadAlike, at_base, inside_fits, judge_inside,
  judge_outside, rva_contains, validate_alike,
}
use fc2_systemdetection.Patches.Error.{Rejection, bytes_rejected, from_scan, scan_error}
use fc2_systemdetection.Patches.Resolve.{parse_positive}
use fc2_systemdetection.Patches.Target.{
  find_signature_target, judge_match, judge_matches, push_judged, select_target,
}
use fc2_systemdetection.Prelude.{
  >>=-eq-ok, All, Bool-cases, List, Result, [], ap, ap₂, arith, err, false, inl, inr, is_empty,
  length, map, map_err-ok, ok, ok-injective, refl, ℕ, ◌+◌, ◌-◌, ◌∷◌, ◌≡◌,
}
use fc2_systemdetection.Scan.Error.{ScanScope}
use fc2_systemdetection.Scan.Image.{ModuleImage, scan}
use fc2_systemdetection.Scan.Pattern.{Pattern}
use fc2_systemdetection.Scan.Rebase.{scan_rvas, scan_sections-map}
use fc2_systemdetection.Text.{Text}

-- The same offset from both bases.
abbrev SameOffset : ℕ → ℕ → ℕ → ℕ → Type 0
SameOffset b1 b2 s t = (y : ℕ) × (s ≡ b1 + y) × (t ≡ b2 + y)

judged_alike :
    {D : Type 0} (b1 b2 y : ℕ) (v1 v2 : Result D WriteState) (wrap : D → Rejection)
    → BothEnd (λ s t. Unit) v1 v2
    → BothEnd
        (SameOffset b1 b2)
        (elim v1 as (λ v. Result Rejection ℕ) [
          | ok state ↦ ok (b1 + y)
          | err error ↦ err (wrap error)
        ])
        (elim v2 as (λ v. Result Rejection ℕ) [
          | ok state ↦ ok (b2 + y)
          | err error ↦ err (wrap error)
        ])
judged_alike b1 b2 y (ok s) (ok t) wrap h = (y, refl, refl)
judged_alike b1 b2 y (ok s) (err e) wrap h = h
judged_alike b1 b2 y (err d) (ok t) wrap h = h
judged_alike b1 b2 y (err d) (err e) wrap h = tt

-- Two lists of accepted targets at the same offsets.
abbrev SameOffsets : ℕ → ℕ → List ℕ → List ℕ → Type 0
SameOffsets b1 b2 ss ts = (ys : List ℕ) × (ss ≡ map (λ y. b1 + y) ys) × (ts ≡ map (λ y. b2 + y) ys)

push_alike :
    (b1 b2 : ℕ) (r1 r2 : Result Rejection ℕ) (j1 j2 : List ℕ × List Rejection)
    → BothEnd (SameOffset b1 b2) r1 r2
    → SameOffsets b1 b2 j1.0 j2.0
    → SameOffsets b1 b2 (push_judged r1 j1).0 (push_judged r2 j2).0
push_alike b1 b2 (ok s) (ok t) j1 j2 (y, here1, here2) (ys, all1, all2) =
    (y ∷ ys, ap₂ ◌∷◌ here1 all1, ap₂ ◌∷◌ here2 all2)
push_alike b1 b2 (ok s) (err e) j1 j2 h k = absurd h
push_alike b1 b2 (err d) (ok t) j1 j2 h k = absurd h
push_alike b1 b2 (err d) (err e) j1 j2 h k = k

select_alike :
    (b1 b2 t : ℕ) (signature : Text) (c1 c2 : ℕ) (ss ts : List ℕ) (d1 d2 : List Rejection)
    → SameOffsets b1 b2 ss ts
    → select_target signature c1 ss d1 ≡ ok t
    → select_target signature c2 ts d2 ≡ ok (t - b1 + b2)
unfolding select_target
select_alike b1 b2 t signature c1 c2 ss ts d1 d2 ([], first, second) h = cc
select_alike b1 b2 t signature c1 c2 ss ts d1 d2 (y ∷ [], first, second) h =
    let t_is : b1 + y ≡ t = ok-injective (rw (first, select_target) at h) in
    let e : b2 + y ≡ t - b1 + b2 = omega (arith, t_is) in rw (second, select_target) (ap ok e)
select_alike b1 b2 t signature c1 c2 ss ts d1 d2 (y ∷ z ∷ ys, first, second) h =
    absurd (ground (arith, rw (first, select_target) at h))

module _ {Pages : Type 0} ⦃os : Os Pages⦄ (image : ModuleImage) (scope : ScanScope) (b1 b2 : ℕ)
    (m1 m2 : Machine Pages) (offset : ℕ) (expected replacement : List ℕ)
    (fits1 : All (FitsAt b1) image.sections) (fits2 : All (FitsAt b2) image.sections)
    (alike : (rva : ℕ)
      → InSection image scope rva (length expected)
      → ReadAlike m1 m2 expected replacement (b1 + rva) (b2 + rva)) where
  judge_alike :
      (x : ℕ)
      → BothEnd
          (SameOffset b1 b2)
          (judge_match m1 (at_base image b1) scope offset expected replacement (b1 + x))
          (judge_match m2 (at_base image b2) scope offset expected replacement (b2 + x))
  judge_alike x = elim (Bool-cases (rva_contains image scope x (x + offset) (length expected))) [
    | inr elsewhere ↦
        rw
          (
            (judge_outside image scope offset expected replacement m1 b1 x elsewhere).1,
            (judge_outside image scope offset expected replacement m2 b2 x elsewhere).1,
          )
          tt
    | inl inside ↦
        let (placed1, held) = inside_fits image scope offset expected b1 x inside fits1 in
        let (placed2, held2) = inside_fits image scope offset expected b2 x inside fits2 in
        rw
          (
            judge_inside image scope offset expected replacement m1 b1 x inside placed1,
            judge_inside image scope offset expected replacement m2 b2 x inside placed2,
          )
          (judged_alike b1 b2 (x + offset) _ _ bytes_rejected (
            validate_alike m1 m2 expected replacement (b1 + (x + offset)) (b2 + (x + offset))
              (alike (x + offset) held)))
  ]

  judge_matches_alike :
      (xs : List ℕ)
      → SameOffsets b1 b2
          (judge_matches m1
            (at_base image b1)
            scope
            offset
            expected
            replacement
            (map (λ x. b1 + x) xs)).0
          (judge_matches m2
            (at_base image b2)
            scope
            offset
            expected
            replacement
            (map (λ x. b2 + x) xs)).0
  unfolding judge_matches
  judge_matches_alike [] = ([], refl, refl)
  judge_matches_alike (x ∷ xs) =
      push_alike b1 b2
        (judge_match m1 (at_base image b1) scope offset expected replacement (b1 + x))
        (judge_match m2 (at_base image b2) scope offset expected replacement (b2 + x)) _ _
        (judge_alike x) (judge_matches_alike xs)

map_nonempty :
    (xs : List ℕ) (f g : ℕ → ℕ) → is_empty (map f xs) ≡ false → is_empty (map g xs) ≡ false
map_nonempty [] f g h = h
map_nonempty (x ∷ xs) f g h = refl

-- One image at two bases, whose sections have as many bytes as their sizes say and end below the end
-- of the address space at both: where the same bytes can be read in its sections, a target that
-- `find_signature_target` finds at the one base it finds at the same offset from the other.
pub find_signature_target-rebased :
    {Pages : Type 0} ⦃os : Os Pages⦄ (image : ModuleImage) (scope : ScanScope) (b1 b2 : ℕ)
    (m1 m2 : Machine Pages) (offset : ℕ) (expected replacement : List ℕ) (signature : Text) (t : ℕ)
    → All (FitsAt b1) image.sections
    → All (FitsAt b2) image.sections
    → ((rva : ℕ)
        → InSection image scope rva (length expected)
        → ReadAlike m1 m2 expected replacement (b1 + rva) (b2 + rva))
    → find_signature_target m1
        (record image { base = b1 })
        signature
        scope
        offset
        expected
        replacement
      ≡ ok t
    → find_signature_target m2
        (record image { base = b2 })
        signature
        scope
        offset
        expected
        replacement
      ≡ ok (t - b1 + b2)
unfolding find_signature_target scan
find_signature_target-rebased image scope b1 b2 m1 m2 offset expected replacement signature t fits1
      fits2 alike found =
    let (pattern, parsing, searched) = >>=-eq-ok (from_scan (Pattern.parse signature)) _ found in
    let positive =
      parse_positive signature pattern (map_err-ok scan_error (Pattern.parse signature) parsing) in
    let rvas = scan_rvas image.sections pattern scope in
    let first : scan (at_base image b1) pattern scope ≡ map (λ x. b1 + x) rvas =
      scan_sections-map pattern scope positive b1 image.sections
        (FitsAt-EndsBelow b1 image.sections fits1) in
    let second : scan (at_base image b2) pattern scope ≡ map (λ x. b2 + x) rvas =
      scan_sections-map pattern scope positive b2 image.sections
        (FitsAt-EndsBelow b2 image.sections fits2) in
    let same =
      judge_matches_alike image scope b1 b2 m1 m2 offset expected replacement fits1 fits2 alike
        rvas in
    elim (Bool-cases (is_empty (map (λ x. b1 + x) rvas))) [
      | inl nothing ↦ absurd (ground (arith, rw nothing at (rw first at searched)))
      | inr something ↦
          let some_there : is_empty (map (λ x. b2 + x) rvas) ≡ false =
            map_nonempty rvas (λ x. b1 + x) (λ x. b2 + x) something in
          rw (parsing, find_signature_target)
            (rw second (
              rw some_there (
                select_alike b1 b2 t signature _ _ _ _ _ _ same
                  (rw something at (rw first at searched)))))
    ]
