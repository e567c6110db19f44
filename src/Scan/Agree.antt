-- ===== src/Scan/Agree.antt =====
-- The two copies of `validate_readable_range`, of src/patches/sigscan.rs and of
-- src/patches/memory.rs, compared.
use fc2_systemdetection.Memory.Checked
use fc2_systemdetection.Scan.Range
use fc2_systemdetection.Memory.Checked.{Checked, is_refused, query_failed, query_readable}
use fc2_systemdetection.Memory.Os.{Os, PageFlags}
use fc2_systemdetection.Memory.Walk.{walk, walk_transfer}
use fc2_systemdetection.Prelude.{
  Bool-cases, Option-cases, Result-cases, arith, inl, inr, length, ltb, min, ok, refl, suc, zero, ℕ,
  ◌+◌, ◌↔◌, ◌≡◌,
}
use fc2_systemdetection.Scan.Error.{query_did_not_advance}
use fc2_systemdetection.Scan.Range.{validate_region, walk_regions}

-- The two copies of `is_readable_protection` name the same protections.
same_protections :
    (flags : PageFlags) (protection : ℕ)
    → Range.is_readable_protection flags protection
      ≡ Checked.is_readable_protection flags protection
unfolding Range.is_readable_protection Checked.is_readable_protection
same_protections flags protection = refl

module _ {Pages : Type 0} ⦃os : Os Pages⦄ where
  round_to :
      (pages : Pages) (c r : ℕ)
      → Range.next_region pages c ≡ ok r
      → Checked.next_region pages c ≡ ok r
  unfolding Range.next_region validate_region Checked.next_region query_readable is_refused
  round_to pages c r h = elim (Option-cases (os.virtual_query pages c)) [
    | inl failed ↦ ground arith
    | inr (s, found) ↦ ground (arith, same_protections os.flags s.protect)
  ]

  round_from :
      (pages : Pages) (c r : ℕ)
      → Checked.next_region pages c ≡ ok r
      → Range.next_region pages c ≡ ok r
  unfolding Range.next_region validate_region Checked.next_region query_readable is_refused
  round_from pages c r h = elim (Option-cases (os.virtual_query pages c)) [
    | inl failed ↦ ground arith
    | inr (s, found) ↦ ground (arith, same_protections os.flags s.protect)
  ]

  -- The loop of sigscan.rs is a walk over its regions.
  walk_regions-walk :
      (pages : Pages) (end fuel c : ℕ)
      → walk_regions pages end fuel c
        ≡ walk (Range.next_region pages) query_did_not_advance end fuel c
  unfolding walk_regions walk
  walk_regions-walk pages end zero c = refl
  walk_regions-walk pages end (suc fuel) c = elim (Bool-cases (ltb c end)) [
    | inr past ↦ rw (past, walk, walk_regions) refl
    | inl more ↦
        rw (more, walk, walk_regions)
          (elim (Result-cases (Range.next_region pages c)) [
            | inr (e, failed) ↦ rw failed refl
            | inl (r, found) ↦ rw found (walk_regions-walk pages end fuel (min r end))
          ])
  ]

  -- Both copies of `validate_readable_range` succeed on the same ranges.
  pub validate_readable_range_iff :
      (pages : Pages) (address length : ℕ)
      → (Range.validate_readable_range pages address length ≡ ok tt)
        ↔ (Checked.validate_readable_range pages address length ≡ ok tt)
  unfolding Range.validate_readable_range Checked.validate_readable_range
  validate_readable_range_iff pages address length = (
    (λ h. ground (
      arith,
      walk_regions-walk pages (address + length) length address,
      walk_transfer (Range.next_region pages) (Checked.next_region pages) (round_to pages)
          query_did_not_advance (query_failed address) (address + length) length address,
    )),
    λ h. ground (
      arith,
      walk_regions-walk pages (address + length) length address,
      walk_transfer (Checked.next_region pages) (Range.next_region pages) (round_from pages)
          (query_failed address) query_did_not_advance (address + length) length address,
    ),
  )
