-- ===== src/Patches/Disabled.antt =====
-- `run` of src/patches/mod.rs with every patch switched off.
use fc2_systemdetection.Config.Options.{PatchConfig}
use fc2_systemdetection.Memory.Os.{Machine, Os}
use fc2_systemdetection.Patches.Build.{DuniaBuild}
use fc2_systemdetection.Patches.Error.{Planned}
use fc2_systemdetection.Patches.Plan.{PatchPlan}
use fc2_systemdetection.Patches.Recipes.{
  plan_devmode_always_on, plan_jackal_tapes, plan_machetes, plan_no_blinking_items,
  plan_predecessor_tapes,
}
use fc2_systemdetection.Patches.Run.{
  Modules, PreparedPatch, apply_all, apply_prepared, disabled_patch, failed_patch, prepare_all,
  prepare_patch, ready, run, run_on_image, settings,
}
use fc2_systemdetection.Prelude.{
  All, Bool, List, Option-cases, Result-cases, String, [], false, inl, inr, refl, true, ◌∷◌, ◌≡◌,
}
use fc2_systemdetection.Scan.Image.{ModuleImage, from_module}
use fc2_systemdetection.Scan.Range.{Portex}

-- Every switch of the configuration is off.
abbrev pub AreOff : PatchConfig → Type 0
AreOff config = All (λ setting. setting.1 ≡ false) (settings config)

-- A prepared patch that is switched off.
abbrev IsDisabled : PreparedPatch → Type 0
IsDisabled (disabled_patch name) = Unit
IsDisabled (ready name plan) = ⊥
IsDisabled (failed_patch name e) = ⊥

prepare_patch-IsDisabled :
    (name : String) (enabled : Bool) (build : Unit {0} → Planned PatchPlan)
    → enabled ≡ false
    → IsDisabled (prepare_patch name enabled build)
unfolding prepare_patch
prepare_patch-IsDisabled name true build off = cc
prepare_patch-IsDisabled name false build off = tt

module _ {Pages : Type 0} ⦃os : Os Pages⦄ where
  apply_all_disabled :
      (ps : List PreparedPatch) (m : Machine Pages) → All IsDisabled ps → (apply_all m ps).1 ≡ m
  unfolding apply_all apply_prepared
  apply_all_disabled [] m h = refl
  apply_all_disabled (disabled_patch name ∷ ps) m (here, h) = apply_all_disabled ps m h
  apply_all_disabled (ready name plan ∷ ps) m (here, h) = absurd here
  apply_all_disabled (failed_patch name e ∷ ps) m (here, h) = absurd here

  run_on_image_off :
      (m : Machine Pages) (image : ModuleImage) (build : DuniaBuild) (config : PatchConfig)
      → AreOff config
      → (run_on_image m image build config).1 ≡ m
  unfolding run_on_image prepare_all
  run_on_image_off m image build config (a, (b, (c, (d, (e, u))))) =
      apply_all_disabled (prepare_all m image build config) m (
        prepare_patch-IsDisabled "jackal_tapes" config.jackal_tapes (λ _. plan_jackal_tapes m image)
            a,
        (
          prepare_patch-IsDisabled "devmode_always_on" config.devmode_always_on
              (λ _. plan_devmode_always_on m image) b,
          (
            prepare_patch-IsDisabled "predecessor_tapes" config.predecessor_tapes
                (λ _. plan_predecessor_tapes m image build) c,
            (
              prepare_patch-IsDisabled "machetes" config.machetes (λ _. plan_machetes m image) d,
              (
                prepare_patch-IsDisabled "no_blinking_items" config.no_blinking_items
                    (λ _. plan_no_blinking_items m image build) e,
                tt,
              ),
            ),
          ),
        ),
      )

  -- With every patch switched off, `run` leaves the bytes of memory and the protection of its
  -- pages as they are.
  pub run_off :
      {Handle PortexError : Type 0} (modules : Modules Pages Handle) (portex : Portex PortexError)
      (m : Machine Pages) (config : PatchConfig)
      → AreOff config
      → (run modules portex m config).1 ≡ m
  unfolding run
  run_off modules portex m config off = elim (Option-cases (modules.handle m.pages)) [
    | inl missing ↦ rw (missing, run) refl
    | inr (dunia, found) ↦
        elim (Result-cases (from_module portex m (modules.information m.pages dunia))) [
          | inr (e, failed_with) ↦ rw (found, failed_with, run) refl
          | inl (image, inspected) ↦
              rw (found, inspected, run) (run_on_image_off m image _ config off)
        ]
  ]
