-- ===== src/Patches/Containment.antt =====
-- The bytes that `run` of src/patches/mod.rs may change.
use fc2_systemdetection.Config.Options.{PatchConfig}
use fc2_systemdetection.Memory.Bytes.{InRange}
use fc2_systemdetection.Memory.Os.{Machine, Os}
use fc2_systemdetection.Patches.Build.{DuniaBuild}
use fc2_systemdetection.Patches.Contained.{
  LiesIn, PlanLiesIn, plan_devmode_always_on-LiesIn, plan_jackal_tapes-LiesIn, plan_machetes-LiesIn,
  plan_no_blinking_items-LiesIn, plan_predecessor_tapes-LiesIn,
}
use fc2_systemdetection.Patches.Error.{Planned}
use fc2_systemdetection.Patches.Frame.{IsOutside, Spares, apply_all-frame}
use fc2_systemdetection.Patches.Plan.{CheckedWrite, PatchPlan}
use fc2_systemdetection.Patches.Recipes.{
  plan_devmode_always_on, plan_jackal_tapes, plan_machetes, plan_no_blinking_items,
  plan_predecessor_tapes,
}
use fc2_systemdetection.Patches.Run.{
  Modules, failed_patch, prepare_all, prepare_patch, ready, run, run_on_image,
}
use fc2_systemdetection.Prelude.{
  All, All-map, Bool, Option-cases, Result-cases, String, arith, err, false, inl, inr, ok, refl,
  some, true, ℕ, ◌+◌, ◌≡◌, ◌⊎◌,
}
use fc2_systemdetection.Scan.Error.{ScanScope, code_scope, read_only_data}
use fc2_systemdetection.Scan.Image.{LoadedSection, ModuleImage, from_module}
use fc2_systemdetection.Scan.Range.{Portex}
use fc2_systemdetection.Scan.Search.{InScope}

-- The address is in a loaded section of the image in the scope.
pub record IsInScope (image : ModuleImage) (scope : ScanScope) (b : ℕ) : Type 0 where
  pub section : LoadedSection
  pub in_scope : InScope image scope section
  pub inside : InRange (image.base + section.metadata.rva) section.metadata.size b

-- The addresses that the patches may change.
abbrev pub IsPatchable : ModuleImage → ℕ → Type 0
IsPatchable image b = IsInScope image code_scope b ⊎ IsInScope image read_only_data b

pub LiesIn-IsOutside :
    (image : ModuleImage) (scope : ScanScope) (b : ℕ)
    → ¬ IsInScope image scope b
    → (w : CheckedWrite) → LiesIn image scope w
    → IsOutside b w
LiesIn-IsOutside image scope b out w lies (from, below) = out (record {
  section = lies.section;
  in_scope = lies.in_scope;
  inside = (omega (arith, lies.from), omega (arith, lies.to));
})

prepare_patch-Spares :
    (image : ModuleImage) (scope : ScanScope) (b : ℕ) (name : String) (enabled : Bool)
    (build : Unit {0} → Planned PatchPlan)
    → ¬ IsInScope image scope b
    → PlanLiesIn image scope (build tt)
    → Spares b (prepare_patch name enabled build)
unfolding prepare_patch
prepare_patch-Spares image scope b name false build out lies = tt
prepare_patch-Spares image scope b name true build out lies = of (build tt) lies
  where
    of :
        (r : Planned PatchPlan)
        → PlanLiesIn image scope r
        → Spares b (elim r [ ok plan ↦ ready name plan | err error ↦ failed_patch name error ])
    of (ok plan) h = All-map plan.writes (LiesIn-IsOutside image scope b out) h
    of (err e) h = tt

module _ {Pages : Type 0} ⦃os : Os Pages⦄ where
  prepare_all-Spares :
      (m : Machine Pages) (image : ModuleImage) (build : DuniaBuild) (config : PatchConfig) (b : ℕ)
      → ¬ IsPatchable image b
      → All (Spares b) (prepare_all m image build config)
  unfolding prepare_all
  prepare_all-Spares m image build config b out =
      let code : ¬ IsInScope image code_scope b = λ h. out (inl h) in
      let data_ : ¬ IsInScope image read_only_data b = λ h. out (inr h) in
      (
        prepare_patch-Spares image code_scope b "jackal_tapes" config.jackal_tapes
            (λ _. plan_jackal_tapes m image) code (plan_jackal_tapes-LiesIn m image),
        (
          prepare_patch-Spares image code_scope b "devmode_always_on" config.devmode_always_on
              (λ _. plan_devmode_always_on m image) code (plan_devmode_always_on-LiesIn m image),
          (
            prepare_patch-Spares image code_scope b "predecessor_tapes" config.predecessor_tapes
                (λ _. plan_predecessor_tapes m image build) code
                (plan_predecessor_tapes-LiesIn m image build),
            (
              prepare_patch-Spares image code_scope b "machetes" config.machetes
                  (λ _. plan_machetes m image) code (plan_machetes-LiesIn m image),
              (
                prepare_patch-Spares image read_only_data b "no_blinking_items"
                    config.no_blinking_items (λ _. plan_no_blinking_items m image build) data_
                    (plan_no_blinking_items-LiesIn m image build),
                tt,
              ),
            ),
          ),
        ),
      )

  run_on_image-contained :
      (m : Machine Pages) (image : ModuleImage) (build : DuniaBuild) (config : PatchConfig) (b : ℕ)
      → ¬ IsPatchable image b
      → (run_on_image m image build config).1.bytes b ≡ m.bytes b
  unfolding run_on_image
  run_on_image-contained m image build config b out =
      apply_all-frame b (prepare_all m image build config) m
        (prepare_all-Spares m image build config b out)

  -- `run` leaves a byte as it was if the byte is in no loaded section of code or of read-only data
  -- of the image that it takes of Dunia.dll; so it changes nothing when Dunia.dll is not loaded or
  -- cannot be inspected.
  pub run-contained :
      {Handle PortexError : Type 0} (modules : Modules Pages Handle) (portex : Portex PortexError)
      (m : Machine Pages) (config : PatchConfig) (b : ℕ)
      → ((dunia : Handle) (image : ModuleImage)
          → modules.handle m.pages ≡ some dunia
          → from_module portex m (modules.information m.pages dunia) ≡ ok image
          → ¬ IsPatchable image b)
      → (run modules portex m config).1.bytes b ≡ m.bytes b
  unfolding run
  run-contained modules portex m config b out = elim (Option-cases (modules.handle m.pages)) [
    | inl missing ↦ rw (missing, run) refl
    | inr (dunia, found) ↦
        elim (Result-cases (from_module portex m (modules.information m.pages dunia))) [
          | inr (e, failed_with) ↦ rw (found, failed_with, run) refl
          | inl (image, inspected) ↦
              rw (found, inspected, run)
                (run_on_image-contained m image _ config b (out dunia image found inspected))
        ]
  ]
