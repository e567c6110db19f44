-- ===== src/Patches/Reports.antt =====
-- The outcomes that `run` of src/patches/mod.rs reports.
use fc2_systemdetection.Config.Options.{PatchConfig}
use fc2_systemdetection.Memory.Checked.{WriteState, already_applied, applied}
use fc2_systemdetection.Memory.Os.{Machine, Os}
use fc2_systemdetection.Patches.Build.{DuniaBuild}
use fc2_systemdetection.Patches.Error.{Planned}
use fc2_systemdetection.Patches.Plan.{PatchPlan, apply}
use fc2_systemdetection.Patches.Recipes.{
  plan_devmode_always_on, plan_jackal_tapes, plan_machetes, plan_no_blinking_items,
  plan_predecessor_tapes,
}
use fc2_systemdetection.Patches.Run.{
  FailReason, Modules, PatchOutcome, PatchReport, PreparedPatch, apply_all, apply_prepared,
  could_not_inspect, disabled, disabled_patch, dunia_not_loaded, fail_enabled, failed, failed_patch,
  new_report, prepare_all, prepare_patch, ready, run, run_on_image, settings, status_of,
}
use fc2_systemdetection.Prelude.{
  Bool, List, Option-cases, Result-cases, String, [], err, false, if◌then◌else◌, inl, inr, map, ok,
  refl, true, ◌↔◌, ◌∷◌, ◌≡◌, ◌≢◌,
}
use fc2_systemdetection.Scan.Image.{ModuleImage, from_module}
use fc2_systemdetection.Scan.Range.{Portex}

-- The outcome of a patch with its switch: it has the name of the patch, and its status is
-- `disabled` exactly if the switch is off.
pub record IsOutcomeOf (setting : String × Bool) (outcome : PatchOutcome) : Type 0 where
  pub name_is : outcome.name ≡ setting.0
  pub status_is : (outcome.status ≡ disabled) ↔ (setting.1 ≡ false)

-- One outcome for each patch, in their order.
abbrev pub AreOutcomesOf : List (String × Bool) → List PatchOutcome → Type 0
AreOutcomesOf [] [] = Unit
AreOutcomesOf [] (o ∷ os) = ⊥
AreOutcomesOf (s ∷ ss) [] = ⊥
AreOutcomesOf (s ∷ ss) (o ∷ os) = IsOutcomeOf s o × AreOutcomesOf ss os

-- A prepared patch with its switch.
abbrev IsPrepared : String × Bool → PreparedPatch → Type 0
IsPrepared s (disabled_patch name) = (name ≡ s.0) × (s.1 ≡ false)
IsPrepared s (ready name plan) = (name ≡ s.0) × (s.1 ≡ true)
IsPrepared s (failed_patch name e) = (name ≡ s.0) × (s.1 ≡ true)

abbrev ArePrepared : List (String × Bool) → List PreparedPatch → Type 0
ArePrepared [] [] = Unit
ArePrepared [] (p ∷ ps) = ⊥
ArePrepared (s ∷ ss) [] = ⊥
ArePrepared (s ∷ ss) (p ∷ ps) = IsPrepared s p × ArePrepared ss ps

prepare_patch-IsPrepared :
    (name : String) (enabled : Bool) (build : Unit {0} → Planned PatchPlan)
    → IsPrepared (name, enabled) (prepare_patch name enabled build)
unfolding prepare_patch
prepare_patch-IsPrepared name false build = (refl, refl)
prepare_patch-IsPrepared name true build = of (build tt)
  where
    of :
        (r : Planned PatchPlan)
        → IsPrepared
            (name, true)
            (elim r [ ok plan ↦ ready name plan | err error ↦ failed_patch name error ])
    of (ok plan) = (refl, refl)
    of (err e) = (refl, refl)

enabled_outcome :
    (s : String × Bool) (outcome : PatchOutcome)
    → outcome.name ≡ s.0
    → s.1 ≡ true
    → outcome.status ≢ disabled
    → IsOutcomeOf s outcome
enabled_outcome s outcome same on status = record {
  name_is = same;
  status_is = (λ off. absurd (status off), λ off. absurd (cc));
}

status_of-enabled : (r : Planned WriteState) → status_of r ≢ disabled
status_of-enabled (ok applied) h = cc
status_of-enabled (ok already_applied) h = cc
status_of-enabled (err e) h = cc

fail_enabled-outcomes :
    (report : PatchReport) (reason : FailReason) (ss : List (String × Bool))
    → AreOutcomesOf ss (
        map
          (λ setting. record {
            name = setting.0;
            status = if setting.1 then failed reason else disabled;
          })
          ss)
fail_enabled-outcomes report reason [] = tt
fail_enabled-outcomes report reason ((name, false) ∷ ss) = (
  record { name_is = refl; status_is = (λ h. refl, λ h. refl) },
  fail_enabled-outcomes report reason ss,
)
fail_enabled-outcomes report reason ((name, true) ∷ ss) =
    (enabled_outcome (name, true) _ refl refl (λ h. cc), fail_enabled-outcomes report reason ss)

module _ {Pages : Type 0} ⦃os : Os Pages⦄ where
  apply_prepared-IsOutcomeOf :
      (m : Machine Pages) (s : String × Bool) (p : PreparedPatch)
      → IsPrepared s p
      → IsOutcomeOf s (apply_prepared m p).0
  unfolding apply_prepared
  apply_prepared-IsOutcomeOf m s (disabled_patch name) (same, off) = record {
    name_is = same;
    status_is = (λ h. off, λ h. refl);
  }
  apply_prepared-IsOutcomeOf m s (failed_patch name e) (same, on) =
      enabled_outcome s _ same on (λ h. cc)
  apply_prepared-IsOutcomeOf m s (ready name plan) (same, on) =
      enabled_outcome s _ same on (status_of-enabled (apply m plan).0)

  apply_all-AreOutcomesOf :
      (ss : List (String × Bool)) (ps : List PreparedPatch) (m : Machine Pages)
      → ArePrepared ss ps
      → AreOutcomesOf ss (apply_all m ps).0
  unfolding apply_all
  apply_all-AreOutcomesOf [] [] m h = tt
  apply_all-AreOutcomesOf [] (p ∷ ps) m h = absurd h
  apply_all-AreOutcomesOf (s ∷ ss) [] m h = absurd h
  apply_all-AreOutcomesOf (s ∷ ss) (p ∷ ps) m (here, h) = (
    apply_prepared-IsOutcomeOf m s p here,
    apply_all-AreOutcomesOf ss ps (apply_prepared m p).1 h,
  )

  prepare_all-ArePrepared :
      (m : Machine Pages) (image : ModuleImage) (build : DuniaBuild) (config : PatchConfig)
      → ArePrepared (settings config) (prepare_all m image build config)
  unfolding prepare_all
  prepare_all-ArePrepared m image build config = (
    prepare_patch-IsPrepared "jackal_tapes" config.jackal_tapes (λ _. plan_jackal_tapes m image),
    (
      prepare_patch-IsPrepared "devmode_always_on" config.devmode_always_on
          (λ _. plan_devmode_always_on m image),
      (
        prepare_patch-IsPrepared "predecessor_tapes" config.predecessor_tapes
            (λ _. plan_predecessor_tapes m image build),
        (
          prepare_patch-IsPrepared "machetes" config.machetes (λ _. plan_machetes m image),
          (
            prepare_patch-IsPrepared "no_blinking_items" config.no_blinking_items
                (λ _. plan_no_blinking_items m image build),
            tt,
          ),
        ),
      ),
    ),
  )

  run_on_image-outcomes :
      (m : Machine Pages) (image : ModuleImage) (build : DuniaBuild) (config : PatchConfig)
      → AreOutcomesOf (settings config) (run_on_image m image build config).0.outcomes
  unfolding run_on_image
  run_on_image-outcomes m image build config =
      apply_all-AreOutcomesOf (settings config) (prepare_all m image build config) m
        (prepare_all-ArePrepared m image build config)

  -- Whatever happens, `run` reports one outcome for each of the five patches, in their order, with
  -- the name of the patch, and with the status `disabled` exactly if the configuration switches the
  -- patch off.
  pub run-outcomes :
      {Handle PortexError : Type 0} (modules : Modules Pages Handle) (portex : Portex PortexError)
      (m : Machine Pages) (config : PatchConfig)
      → AreOutcomesOf (settings config) (run modules portex m config).0.outcomes
  unfolding run fail_enabled
  run-outcomes modules portex m config = elim (Option-cases (modules.handle m.pages)) [
    | inl missing ↦
        rw (missing, run)
          (fail_enabled-outcomes new_report (dunia_not_loaded (os.last_os_error m.pages))
            (settings config))
    | inr (dunia, found) ↦
        elim (Result-cases (from_module portex m (modules.information m.pages dunia))) [
          | inr (e, failed_with) ↦
              rw (found, failed_with, run)
                (fail_enabled-outcomes new_report (could_not_inspect e) (settings config))
          | inl (image, inspected) ↦
              rw (found, inspected, run) (run_on_image-outcomes m image _ config)
        ]
  ]
