-- ===== src/Patches/Run.antt =====
-- `prepare_patch`, `PreparedPatch::apply`, `PatchReport` and `run` of src/patches/mod.rs.
use fc2_systemdetection.Config.Options.{ConfigSource, PatchConfig, Warning}
use fc2_systemdetection.Memory.Checked.{WriteState, already_applied, applied}
use fc2_systemdetection.Memory.Os.{Machine, Os}
use fc2_systemdetection.Patches.Build.{DuniaBuild, FileName, PathFault, detect_build}
use fc2_systemdetection.Patches.Error.{PatchError, Planned}
use fc2_systemdetection.Patches.Plan.{PatchPlan, apply}
use fc2_systemdetection.Patches.Recipes.{
  plan_devmode_always_on, plan_jackal_tapes, plan_machetes, plan_no_blinking_items,
  plan_predecessor_tapes,
}
use fc2_systemdetection.Prelude.{
  Bool, List, Option, Result, String, [], err, if◌then◌else◌, map, none, ok, some, ℕ, ◌∷◌,
}
use fc2_systemdetection.Scan.Error.{ScanError}
use fc2_systemdetection.Scan.Image.{ModuleImage, from_module}
use fc2_systemdetection.Scan.Range.{Portex}
use fc2_systemdetection.Text.{Text}

-- A text that `PatchStatus::Failed` carries, by what it is made of.
pub data FailReason : Type 0 where
  dunia_not_loaded : String → FailReason
  could_not_inspect : ScanError → FailReason
  patch_failed : PatchError → FailReason

pub data PatchStatus : Type 0 where
  disabled status_applied status_already_applied : PatchStatus
  failed : FailReason → PatchStatus

pub record PatchOutcome : Type 0 where
  pub name : String
  pub status : PatchStatus

pub data PreparedPatch : Type 0 where
  disabled_patch : String → PreparedPatch
  ready : String → PatchPlan → PreparedPatch
  failed_patch : String → PatchError → PreparedPatch

-- `prepare_patch`; `build` is the closure that makes the plan.
unfoldable pub prepare_patch : String → Bool → (Unit {0} → Planned PatchPlan) → PreparedPatch
prepare_patch name enabled build =
    if enabled
    then elim (build tt) [ ok plan ↦ ready name plan | err error ↦ failed_patch name error ]
    else disabled_patch name

-- The line of the report about the configuration.
pub data Configuration : Type 0 where
  dll_path_unavailable : PathFault → Configuration
  dll_directory_unavailable : Configuration
  -- The path that the text shows, and what became of the file.
  read_from : Text → ConfigSource → Configuration

pub record PatchReport : Type 0 where
  pub configuration : Option Configuration
  pub build : Option DuniaBuild
  -- The base and the size that the text for the image shows.
  pub image : Option (ℕ × ℕ)
  pub outcomes : List PatchOutcome
  pub warnings : List Warning

-- `PatchReport::new`
abbrev pub new_report : PatchReport
new_report = record {
  configuration = none;
  build = none;
  image = none;
  outcomes = [];
  warnings = [];
}

-- The patches with their switches, in the order of the report.
abbrev pub settings : PatchConfig → List (String × Bool)
settings config =
    ("jackal_tapes", config.jackal_tapes)
    ∷ ("devmode_always_on", config.devmode_always_on)
    ∷ ("predecessor_tapes", config.predecessor_tapes)
    ∷ ("machetes", config.machetes)
    ∷ ("no_blinking_items", config.no_blinking_items)
    ∷ []

-- `PatchReport::fail_enabled`
unfoldable pub fail_enabled : PatchReport → PatchConfig → FailReason → PatchReport
fail_enabled report config reason = record report {
  outcomes =
      map
        (λ setting. record {
          name = setting.0;
          status = if setting.1 then failed reason else disabled;
        })
        (settings config);
}

-- What `run` asks of Windows and of the file system about Dunia.dll. `handle` is the result of
-- `GetModuleHandleA`, `information` that of `K32GetModuleInformation`, `file_name` that of
-- `GetModuleFileNameW` for a capacity, and `metadata_len` the length of a file.
pub record Modules (Pages Handle : Type 0) : Type 0 where
  pub handle : Pages → Option Handle
  pub information : Pages → Handle → Result String (ℕ × ℕ)
  pub file_name : Pages → Handle → ℕ → FileName
  pub metadata_len : List ℕ → Option ℕ

-- The status of a plan that has been applied.
abbrev pub status_of : Planned WriteState → PatchStatus
status_of (ok applied) = status_applied
status_of (ok already_applied) = status_already_applied
status_of (err error) = failed (patch_failed error)

module _ {Pages : Type 0} ⦃os : Os Pages⦄ where
  -- `PreparedPatch::apply`
  unfoldable pub apply_prepared : Machine Pages → PreparedPatch → PatchOutcome × Machine Pages
  apply_prepared m (disabled_patch name) = (record { name = name; status = disabled }, m)
  apply_prepared m (failed_patch name error) =
      (record { name = name; status = failed (patch_failed error) }, m)
  apply_prepared m (ready name plan) =
      let (result, m') = apply m plan in (record { name = name; status = status_of result }, m')

  -- `prepared.into_iter().map(PreparedPatch::apply).collect()`
  unfoldable pub apply_all : Machine Pages → List PreparedPatch → List PatchOutcome × Machine Pages
  unfolding apply_prepared
  apply_all m [] = ([], m)
  apply_all m (p ∷ ps) =
      let (outcome, m') = apply_prepared m p in
      let (outcomes, m'') = apply_all m' ps in (outcome ∷ outcomes, m'')

  -- The vector `prepared` of `run`. All plans are made on one machine, before any is applied.
  unfoldable pub prepare_all :
      Machine Pages → ModuleImage → DuniaBuild → PatchConfig → List PreparedPatch
  unfolding prepare_patch
  prepare_all m image build config =
      prepare_patch "jackal_tapes" config.jackal_tapes (λ _. plan_jackal_tapes m image)
      ∷ prepare_patch "devmode_always_on" config.devmode_always_on
          (λ _. plan_devmode_always_on m image)
      ∷ prepare_patch "predecessor_tapes" config.predecessor_tapes
          (λ _. plan_predecessor_tapes m image build)
      ∷ prepare_patch "machetes" config.machetes (λ _. plan_machetes m image)
      ∷ prepare_patch "no_blinking_items" config.no_blinking_items
          (λ _. plan_no_blinking_items m image build)
      ∷ []

  -- The part of `run` behind the two early returns.
  unfoldable pub run_on_image :
      Machine Pages → ModuleImage → DuniaBuild → PatchConfig → PatchReport × Machine Pages
  unfolding prepare_all apply_all
  run_on_image m image build config =
      let (outcomes, m') = apply_all m (prepare_all m image build config) in
      (
        record new_report {
          build = some build;
          image = some (image.base, image.size);
          outcomes = outcomes;
        },
        m',
      )

  unfoldable pub run :
      {Handle PortexError : Type 0}
      → Modules Pages Handle
      → Portex PortexError
      → Machine Pages
      → PatchConfig
      → PatchReport × Machine Pages
  unfolding run_on_image fail_enabled detect_build
  run modules portex m config = elim (modules.handle m.pages) [
    | none ↦ (fail_enabled new_report config (dunia_not_loaded (os.last_os_error m.pages)), m)
    | some dunia ↦ elim (from_module portex m (modules.information m.pages dunia)) [
      | err error ↦ (fail_enabled new_report config (could_not_inspect error), m)
      | ok image ↦
          run_on_image m image (detect_build (modules.file_name m.pages dunia) modules.metadata_len)
            config
    ]
  ]
