-- ===== src/Patches/Contained.antt =====
-- The places of the writes that the planners of src/patches/mod.rs make.
use fc2_systemdetection.Patches.Signatures
use fc2_systemdetection.Memory.Os.{Machine, Os}
use fc2_systemdetection.Memory.Reads.{validate_bytes-ok}
use fc2_systemdetection.Patches.Build.{DuniaBuild, retail, steam, ubisoft, unknown}
use fc2_systemdetection.Patches.Error.{Planned, from_scan, scan_error}
use fc2_systemdetection.Patches.Known.{
  IsValidated, checked_known_signature_write-KnownWrite, validated-IsValidated,
}
use fc2_systemdetection.Patches.Plan.{CheckedWrite, PatchPlan, new, single, validated}
use fc2_systemdetection.Patches.Recipes.{
  dot, letter_k, nul, plan_devmode_always_on, plan_found_no_blinking, plan_jackal_tapes,
  plan_known_no_blinking, plan_machetes, plan_no_blinking_items, plan_predecessor_by_signature,
  plan_predecessor_tapes, plan_signature, retail_no_blink_rvas, retail_predecessor_rva,
  steam_no_blink_rvas, underscore,
}
use fc2_systemdetection.Patches.Resolve.{find_signature_target-ResolvesTo}
use fc2_systemdetection.Patches.Target.{checked_known_signature_write, find_signature_target}
use fc2_systemdetection.Prelude.{
  >>=-eq-ok, All, List, [], arith, err, length, map_err-ok, ok, refl, subst, sym, ℕ, ◌+◌, ◌<◌,
  ◌>>=◌, ◌∷◌, ◌≡◌, ◌≤◌,
}
use fc2_systemdetection.Scan.Error.{ScanScope, code_scope, read_only_data}
use fc2_systemdetection.Scan.Image.{LoadedSection, ModuleImage, address_from_rva}
use fc2_systemdetection.Scan.Search.{InScope, RvaInside, TargetInside, address_from_rva-inside}
use fc2_systemdetection.Text.{Text}

-- The range of the write lies in one section of the scope.
pub record LiesIn (image : ModuleImage) (scope : ScanScope) (w : CheckedWrite) : Type 0 where
  pub section : LoadedSection
  pub in_scope : InScope image scope section
  pub from : image.base + section.metadata.rva ≤ w.address
  pub to :
      w.address + length w.replacement ≤ image.base + section.metadata.rva + section.metadata.size

-- Every write of a planned patch lies in a section of the scope.
abbrev pub PlanLiesIn : ModuleImage → ScanScope → Planned PatchPlan → Type 0
PlanLiesIn image scope (ok plan) = All (LiesIn image scope) plan.writes
PlanLiesIn image scope (err e) = Unit

PlanLiesIn-of :
    (image : ModuleImage) (scope : ScanScope) (r : Planned PatchPlan)
    → ((plan : PatchPlan) → r ≡ ok plan → All (LiesIn image scope) plan.writes)
    → PlanLiesIn image scope r
PlanLiesIn-of image scope (ok plan) h = h plan refl
PlanLiesIn-of image scope (err e) h = tt

bind-LiesIn :
    {A : Type 0} (image : ModuleImage) (scope : ScanScope) (r : Planned A)
    (f : A → Planned PatchPlan)
    → ((a : A) → r ≡ ok a → PlanLiesIn image scope (f a))
    → PlanLiesIn image scope (r >>= f)
bind-LiesIn image scope (ok a) f h = h a refl
bind-LiesIn image scope (err e) f h = tt

new-ok :
    (writes : List CheckedWrite) (plan : PatchPlan) → new writes ≡ ok plan → plan.writes ≡ writes
unfolding new
new-ok writes plan h = ground arith

module _ {Pages : Type 0} ⦃os : Os Pages⦄ (m : Machine Pages) (image : ModuleImage)
    (scope : ScanScope) where
  -- A write that has been validated at a target inside a section lies in that section.
  validated-LiesIn :
      (start target : ℕ) (expected replacement : List ℕ) (w : CheckedWrite)
      → TargetInside image scope start target (length expected)
      → IsValidated m target expected replacement w
      → LiesIn image scope w
  validated-LiesIn start target expected replacement w inside v =
      let (class, same, positive) = validate_bytes-ok m target expected replacement v.valid in
      record {
        section = inside.section;
        in_scope = inside.in_scope;
        from = rw v.address_is inside.target_from;
        to = rw (v.address_is, v.replacement_is, ← same) inside.target_to;
      }

  single-LiesIn :
      (start target : ℕ) (expected replacement : List ℕ) (plan : PatchPlan)
      → TargetInside image scope start target (length expected)
      → single m target expected replacement ≡ ok plan
      → All (LiesIn image scope) plan.writes
  unfolding single
  single-LiesIn start target expected replacement plan inside h =
      let (w, made, whole) = >>=-eq-ok (validated m target expected replacement) _ h in
      rw (new-ok (w ∷ []) plan whole) (
        validated-LiesIn start target expected replacement w inside
            (validated-IsValidated m target expected replacement w made),
        tt,
      )

  plan_signature-LiesIn :
      (signature : Text) (offset : ℕ) (expected replacement : List ℕ)
      → PlanLiesIn image scope (plan_signature m image signature scope offset expected replacement)
  plan_signature-LiesIn signature offset expected replacement =
      PlanLiesIn-of image scope _ λ plan h.
        let (target, found, made) =
          >>=-eq-ok (find_signature_target m image signature scope offset expected replacement) _
            h in
        let r =
          find_signature_target-ResolvesTo m image scope offset expected replacement signature
            target found in
        single-LiesIn r.start target expected replacement plan r.accepted.inside made

  rva_target :
      (rva n : ℕ)
      → RvaInside image scope rva n
      → 0 < n
      → TargetInside image scope (image.base + rva) (image.base + rva) n
  rva_target rva n r positive = record {
    section = r.section;
    in_scope = r.in_scope;
    match_from = omega (arith, r.rva_from);
    match_below = omega (arith, r.rva_to);
    target_from = omega (arith, r.rva_from);
    target_to = omega (arith, r.rva_to);
  }

  known-LiesIn :
      (signature : Text) (target_rva target_offset : ℕ) (expected replacement : List ℕ)
      (w : CheckedWrite)
      → 0 < length expected
      → checked_known_signature_write m image signature scope target_rva target_offset expected
          replacement
        ≡ ok w
      → LiesIn image scope w
  known-LiesIn signature target_rva target_offset expected replacement w positive h =
      let k =
        checked_known_signature_write-KnownWrite m image signature scope target_rva target_offset
          expected replacement w h in
      validated-LiesIn (image.base + target_rva) (image.base + target_rva) expected replacement w
        (rva_target target_rva (length expected) k.inside positive) k.write

  found-LiesIn :
      (signature : Text) (offset target : ℕ) (expected replacement : List ℕ) (w : CheckedWrite)
      → find_signature_target m image signature scope offset expected replacement ≡ ok target
      → validated m target expected replacement ≡ ok w
      → LiesIn image scope w
  found-LiesIn signature offset target expected replacement w found made =
      let r =
        find_signature_target-ResolvesTo m image scope offset expected replacement signature target
          found in
      validated-LiesIn r.start target expected replacement w r.accepted.inside
        (validated-IsValidated m target expected replacement w made)

-- The five planners.
module _ {Pages : Type 0} ⦃os : Os Pages⦄ (m : Machine Pages) (image : ModuleImage) where
  pub plan_jackal_tapes-LiesIn : PlanLiesIn image code_scope (plan_jackal_tapes m image)
  unfolding plan_jackal_tapes
  plan_jackal_tapes-LiesIn =
      plan_signature-LiesIn m image code_scope Signatures.jackal_tapes 5 (0x0A ∷ []) (0x14 ∷ [])

  pub plan_devmode_always_on-LiesIn : PlanLiesIn image code_scope (plan_devmode_always_on m image)
  unfolding plan_devmode_always_on
  plan_devmode_always_on-LiesIn =
      plan_signature-LiesIn m image code_scope Signatures.devmode_always_on 8 (0x75 ∷ [])
        (0xEB ∷ [])

  pub plan_machetes-LiesIn : PlanLiesIn image code_scope (plan_machetes m image)
  unfolding plan_machetes
  plan_machetes-LiesIn =
      plan_signature-LiesIn m image code_scope Signatures.machetes 0x69 (0x8A ∷ 0xC3 ∷ [])
        (0xB0 ∷ 0x01 ∷ [])

  by_signature-LiesIn : PlanLiesIn image code_scope (plan_predecessor_by_signature m image)
  unfolding plan_predecessor_by_signature
  by_signature-LiesIn =
      plan_signature-LiesIn m image code_scope Signatures.predecessor_tapes_steam 5
        (0x74 ∷ 0x16 ∷ []) (0xEB ∷ 0x0E ∷ [])

  pub plan_predecessor_tapes-LiesIn :
      (build : DuniaBuild) → PlanLiesIn image code_scope (plan_predecessor_tapes m image build)
  unfolding plan_predecessor_tapes
  plan_predecessor_tapes-LiesIn steam = by_signature-LiesIn
  plan_predecessor_tapes-LiesIn ubisoft = by_signature-LiesIn
  plan_predecessor_tapes-LiesIn (unknown size) = by_signature-LiesIn
  plan_predecessor_tapes-LiesIn retail = PlanLiesIn-of image code_scope _ λ plan h.
      let (target, found, made) =
        >>=-eq-ok (from_scan (address_from_rva image retail_predecessor_rva 2 code_scope)) _ h in
      let (target_is, inside) =
        address_from_rva-inside image retail_predecessor_rva 2 code_scope target
          (map_err-ok scan_error _ found) in
      single-LiesIn m image code_scope target target (0x8A ∷ 0xC3 ∷ []) (0xB0 ∷ 0x01 ∷ []) plan
        (subst (λ t. TargetInside image code_scope t t 2) (sym target_is)
          (rva_target m image code_scope retail_predecessor_rva 2 inside (omega arith)))
        made

  -- Three writes that lie in the scope.
  three-LiesIn :
      {w1 w2 w3 : CheckedWrite} (scope : ScanScope)
      → LiesIn image scope w1
      → LiesIn image scope w2
      → LiesIn image scope w3
      → PlanLiesIn image scope (new (w1 ∷ w2 ∷ w3 ∷ []))
  unfolding new
  three-LiesIn scope h1 h2 h3 = (h1, (h2, (h3, tt)))

  known_no_blinking-LiesIn :
      (rvas : ℕ × ℕ × ℕ) → PlanLiesIn image read_only_data (plan_known_no_blinking m image rvas)
  unfolding plan_known_no_blinking
  known_no_blinking-LiesIn (mesh_rva, arch_rva, save_rva) =
      bind-LiesIn image read_only_data _ _ λ mesh mesh_made.
        bind-LiesIn image read_only_data _ _ λ arch arch_made.
          bind-LiesIn image read_only_data _ _ λ save save_made.
            three-LiesIn read_only_data
              (known-LiesIn m image read_only_data Signatures.mesh_highlight mesh_rva 4 underscore
                dot mesh (omega arith) mesh_made)
              (known-LiesIn m image read_only_data Signatures.arch_blink arch_rva 8 letter_k dot
                arch (omega arith) arch_made)
              (known-LiesIn m image read_only_data Signatures.save_disk save_rva 31 nul dot save
                (omega arith) save_made)

  found_no_blinking-LiesIn : PlanLiesIn image read_only_data (plan_found_no_blinking m image)
  unfolding plan_found_no_blinking
  found_no_blinking-LiesIn = bind-LiesIn image read_only_data _ _ λ mesh_at mesh_found.
      bind-LiesIn image read_only_data _ _ λ arch_at arch_found.
        bind-LiesIn image read_only_data _ _ λ save_at save_found.
          bind-LiesIn image read_only_data _ _ λ mesh mesh_made.
            bind-LiesIn image read_only_data _ _ λ arch arch_made.
              bind-LiesIn image read_only_data _ _ λ save save_made.
                three-LiesIn read_only_data
                  (found-LiesIn m image read_only_data Signatures.mesh_highlight 4 mesh_at
                    underscore dot mesh mesh_found mesh_made)
                  (found-LiesIn m image read_only_data Signatures.arch_blink 8 arch_at letter_k dot
                    arch arch_found arch_made)
                  (found-LiesIn m image read_only_data Signatures.save_disk 31 save_at nul dot save
                    save_found save_made)

  pub plan_no_blinking_items-LiesIn :
      (build : DuniaBuild) → PlanLiesIn image read_only_data (plan_no_blinking_items m image build)
  unfolding plan_no_blinking_items
  plan_no_blinking_items-LiesIn steam = known_no_blinking-LiesIn steam_no_blink_rvas
  plan_no_blinking_items-LiesIn ubisoft = known_no_blinking-LiesIn steam_no_blink_rvas
  plan_no_blinking_items-LiesIn retail = known_no_blinking-LiesIn retail_no_blink_rvas
  plan_no_blinking_items-LiesIn (unknown size) = found_no_blinking-LiesIn
