-- ===== src/Offline/Prepare.antt =====
-- `make_plans`, `no_blink_diagnostics` and the first loop of `validate_dunia_file` of
-- src/patches/offline.rs.
use fc2_systemdetection.Patches.Signatures
use fc2_systemdetection.Scan.Pattern
use fc2_systemdetection.Memory.Checked.{MemoryError, read_bytes}
use fc2_systemdetection.Memory.Os.{Machine, Os}
use fc2_systemdetection.Offline.Known.{
  Candidate, PlanFailure, PreparedTuple, ValidationError, original_unreadable, same_name,
}
use fc2_systemdetection.Patches.Build.{DuniaBuild}
use fc2_systemdetection.Patches.Error.{Planned}
use fc2_systemdetection.Patches.Plan.{CheckedWrite, PatchPlan}
use fc2_systemdetection.Patches.Recipes.{
  plan_devmode_always_on, plan_jackal_tapes, plan_machetes, plan_no_blinking_items,
  plan_predecessor_tapes,
}
use fc2_systemdetection.Prelude.{
  List, Option, Result, String, [], checked_add, err, get_or, if◌then◌else◌, length, map, map_err,
  none, ok, some, ℕ, ◌++◌, ◌-◌, ◌>>=◌, ◌∷◌,
}
use fc2_systemdetection.Scan.Error.{read_only_data}
use fc2_systemdetection.Scan.Image.{ModuleImage, scan}
use fc2_systemdetection.Scan.Pattern.{Pattern}
use fc2_systemdetection.Text.{Text}

-- `filter_map`
abbrev pub filter_map : {A B : Type 0} → (A → Option B) → List A → List B
filter_map f [] = []
filter_map f (x ∷ xs) = let rest = filter_map f xs in elim (f x) [ none ↦ rest | some y ↦ y ∷ rest ]

-- The columns of a prepared patch, without its name and plan.
pub record Columns : Type 0 where
  pub rvas : List ℕ
  pub original_bytes : List (List ℕ)
  pub replacement_bytes : List (List ℕ)

module _ {Pages : Type 0} ⦃os : Os Pages⦄ where
  unfoldable pub make_plans :
      Machine Pages → ModuleImage → DuniaBuild → List (String × Planned PatchPlan)
  make_plans m image build =
      ("jackal_tapes", plan_jackal_tapes m image)
      ∷ ("devmode_always_on", plan_devmode_always_on m image)
      ∷ ("predecessor_tapes", plan_predecessor_tapes m image build)
      ∷ ("machetes", plan_machetes m image)
      ∷ ("no_blinking_items", plan_no_blinking_items m image build)
      ∷ []

  -- The closure of `filter_map`: the match is left out if its target overflows or cannot be read.
  unfoldable pub describe_candidate : Machine Pages → ℕ → ℕ → ℕ → Option Candidate
  describe_candidate m base offset start = elim (checked_add start offset) [
    | none ↦ none
    | some target ↦ elim (read_bytes m target 1) [
      | err error ↦ none
      | ok bytes ↦
          some (record {
            start_rva = start - base;
            target_rva = target - base;
            byte = get_or bytes 0 0;
          })
    ]
  ]

  -- The candidates of one signature; there are none if it is no pattern.
  unfoldable pub candidates_of :
      Machine Pages → ModuleImage → String × Text × ℕ → String × List Candidate
  unfolding describe_candidate
  candidates_of m image (name, signature, offset) = (
    name,
    filter_map (describe_candidate m image.base offset) (elim (Pattern.parse signature) [
      | ok pattern ↦ scan image pattern read_only_data
      | err error ↦ []
    ]),
  )

  unfoldable pub no_blink_diagnostics : Machine Pages → ModuleImage → List (String × List Candidate)
  unfolding candidates_of
  no_blink_diagnostics m image = map (candidates_of m image) (
      ("Mesh_Highlight", Signatures.mesh_highlight, 4)
      ∷ ("archBlink", Signatures.arch_blink, 8)
      ∷ ("SaveDisk", Signatures.save_disk, 31)
      ∷ [])

  -- The loop over the writes of a plan.
  unfoldable pub describe_writes :
      Machine Pages → ℕ → List CheckedWrite → Result MemoryError Columns
  describe_writes m base [] = ok (record { rvas = []; original_bytes = []; replacement_bytes = [] })
  describe_writes m base (w ∷ ws) = read_bytes m w.address (length w.expected) >>= λ original.
      describe_writes m base ws >>= λ rest. ok (record {
        rvas = (w.address - base) ∷ rest.rvas;
        original_bytes = original ∷ rest.original_bytes;
        replacement_bytes = w.replacement ∷ rest.replacement_bytes;
      })

  -- One patch is pushed to `failures` or to `prepared`.
  unfoldable pub push_planned :
      Machine Pages
      → ModuleImage
      → String
      → Planned PatchPlan
      → List PlanFailure × List PreparedTuple
      → Result ValidationError (List PlanFailure × List PreparedTuple)
  unfolding describe_writes no_blink_diagnostics
  push_planned m image name (ok plan) (failures, prepared) =
      map_err (original_unreadable name) (describe_writes m image.base plan.writes) >>= λ columns.
      ok (
        failures,
        prepared
            ++ (record {
              name = name;
              plan = plan;
              rvas = columns.rvas;
              original_bytes = columns.original_bytes;
              replacement_bytes = columns.replacement_bytes;
            }
                ∷ []),
      )
  push_planned m image name (err error) (failures, prepared) =
      let diagnostics =
        if same_name name "no_blinking_items" then no_blink_diagnostics m image else [] in
      ok (
        failures ++ (record { name = name; error = error; diagnostics = diagnostics } ∷ []),
        prepared,
      )

  -- The loop over the plans.
  unfoldable pub prepare_plans :
      Machine Pages
      → ModuleImage
      → List (String × Planned PatchPlan)
      → List PlanFailure × List PreparedTuple
      → Result ValidationError (List PlanFailure × List PreparedTuple)
  unfolding push_planned
  prepare_plans m image [] pushed = ok pushed
  prepare_plans m image ((name, result) ∷ rest) pushed =
      push_planned m image name result pushed >>= λ next. prepare_plans m image rest next
