-- ===== src/Offline/Known.antt =====
-- The values of src/patches/offline.rs, and its check of the RVAs of known builds. The texts of the
-- errors are kept as values that name what is formatted into them.
use fc2_systemdetection.Memory.Checked.{MemoryError}
use fc2_systemdetection.Patches.Build.{DuniaBuild, retail, steam, ubisoft, unknown}
use fc2_systemdetection.Patches.Error.{PatchError}
use fc2_systemdetection.Patches.Plan.{PatchPlan}
use fc2_systemdetection.Patches.Recipes.{
  retail_no_blink_rvas, retail_predecessor_rva, steam_no_blink_rvas,
}
use fc2_systemdetection.Prelude.{
  Bool, List, Option, Result, String, [], err, if◌then◌else◌, list_eq, none, ok, ok_or, some, ℕ,
  ◌>>=◌, ◌∷◌,
}
use fc2_systemdetection.Scan.Error.{ScanError}
use fc2_systemdetection.Text.{codes}

-- The patches are named by `&'static str`; the names are compared as texts.
abbrev pub same_name : String → String → Bool
same_name a b = list_eq (codes a) (codes b)

-- One place that `no_blink_diagnostics` lists: where the signature starts, its target, and the byte
-- there.
pub record Candidate : Type 0 where
  pub start_rva : ℕ
  pub target_rva : ℕ
  pub byte : ℕ

-- A patch for which no plan was made; `diagnostics` is empty but for `no_blinking_items`.
pub record PlanFailure : Type 0 where
  pub name : String
  pub error : PatchError
  pub diagnostics : List (String × List Candidate)

-- The texts that `validate_dunia_file` returns for an error.
pub data ValidationError : Type 0 where
  could_not_read : String → ValidationError
  could_not_map : ScanError → ValidationError
  original_unreadable : String → MemoryError → ValidationError
  static_validation_failed : DuniaBuild → List PlanFailure → ValidationError
  no_patch_plan : String → ValidationError
  resolved_elsewhere : String → List ℕ → List ℕ → DuniaBuild → ValidationError
  apply_to_copy_failed : String → PatchError → ValidationError
  could_not_replan : String → PatchError → ValidationError
  reapply_to_copy_failed : String → PatchError → ValidationError
  not_idempotent : String → ValidationError

pub data OfflinePatchState : Type 0 where
  applied_to_copy already_present : OfflinePatchState

pub record ValidatedPatch : Type 0 where
  pub name : String
  pub rvas : List ℕ
  pub original_bytes : List (List ℕ)
  pub replacement_bytes : List (List ℕ)
  pub state : OfflinePatchState

pub record DuniaFileValidation : Type 0 where
  pub build : DuniaBuild
  pub file_size : ℕ
  pub image_size : ℕ
  pub patches : List ValidatedPatch

-- The tuple `PreparedPatch` of the source.
pub record PreparedTuple : Type 0 where
  pub name : String
  pub plan : PatchPlan
  pub rvas : List ℕ
  pub original_bytes : List (List ℕ)
  pub replacement_bytes : List (List ℕ)

abbrev pub rva_list : ℕ × ℕ × ℕ → List ℕ
rva_list (mesh, arch, save) = mesh ∷ arch ∷ save ∷ []

-- The names with the RVAs that a known build must have; `none` for an unknown build.
unfoldable pub known_rvas : DuniaBuild → Option (List (String × List ℕ))
known_rvas steam = some (
    ("jackal_tapes", 0x0074_E465 ∷ [])
    ∷ ("predecessor_tapes", 0x002E_1D15 ∷ [])
    ∷ ("machetes", 0x0004_8939 ∷ [])
    ∷ ("no_blinking_items", rva_list steam_no_blink_rvas)
    ∷ [])
known_rvas ubisoft = some (
    ("jackal_tapes", 0x0074_E465 ∷ [])
    ∷ ("predecessor_tapes", 0x002E_1D15 ∷ [])
    ∷ ("machetes", 0x0004_8939 ∷ [])
    ∷ ("no_blinking_items", rva_list steam_no_blink_rvas)
    ∷ [])
known_rvas retail = some (
    ("jackal_tapes", 0x0074_0F55 ∷ [])
    ∷ ("predecessor_tapes", retail_predecessor_rva ∷ [])
    ∷ ("machetes", 0x0004_8A09 ∷ [])
    ∷ ("no_blinking_items", rva_list retail_no_blink_rvas)
    ∷ [])
known_rvas (unknown size) = none

-- `find_map` over the prepared patches: the RVAs of the first one of the name.
unfoldable pub find_rvas : String → List PreparedTuple → Option (List ℕ)
find_rvas name [] = none
find_rvas name (p ∷ ps) = if same_name p.name name then some p.rvas else find_rvas name ps

-- The loop of `validate_known_rvas`.
unfoldable pub check_rvas :
    DuniaBuild → List PreparedTuple → List (String × List ℕ) → Result ValidationError (Unit {0})
unfolding find_rvas
check_rvas build prepared [] = ok tt
check_rvas build prepared ((name, expected) ∷ rest) =
    ok_or (no_patch_plan name) (find_rvas name prepared) >>= λ actual.
    if list_eq actual expected
    then check_rvas build prepared rest
    else err (resolved_elsewhere name actual expected build)

unfoldable pub validate_known_rvas :
    DuniaBuild → List PreparedTuple → Result ValidationError (Unit {0})
unfolding known_rvas check_rvas
validate_known_rvas build prepared = elim (known_rvas build) [
  | none ↦ ok tt
  | some expected ↦ check_rvas build prepared expected
]
