-- ===== src/Offline/Frame.antt =====
-- What `validate_dunia_file` of src/patches/offline.rs may change.
use fc2_systemdetection.Memory.Checked.{already_applied, applied}
use fc2_systemdetection.Memory.Os.{Machine, Os}
use fc2_systemdetection.Offline.Known.{
  PlanFailure, PreparedTuple, original_unreadable, validate_known_rvas,
}
use fc2_systemdetection.Offline.Prepare.{describe_writes, make_plans, prepare_plans, push_planned}
use fc2_systemdetection.Offline.Validate.{apply_to_copy, reapply_to_copy, try_plans, validate_image}
use fc2_systemdetection.Patches.Build.{DuniaBuild}
use fc2_systemdetection.Patches.Contained.{
  PlanLiesIn, plan_devmode_always_on-LiesIn, plan_jackal_tapes-LiesIn, plan_machetes-LiesIn,
  plan_no_blinking_items-LiesIn, plan_predecessor_tapes-LiesIn,
}
use fc2_systemdetection.Patches.Containment.{IsInScope, IsPatchable, LiesIn-IsOutside}
use fc2_systemdetection.Patches.Error.{Planned}
use fc2_systemdetection.Patches.Frame.{IsOutside, apply-frame}
use fc2_systemdetection.Patches.Plan.{PatchPlan, apply}
use fc2_systemdetection.Prelude.{
  >>=-eq-ok, All, All-append, All-map, Bool-cases, List, Result-cases, String, [], ap, err, inl,
  inr, is_empty, map_err, ok, ok-injective, refl, subst, ℕ, ◌∙◌, ◌∷◌, ◌≡◌,
}
use fc2_systemdetection.Scan.Error.{ScanScope, code_scope, read_only_data}
use fc2_systemdetection.Scan.Image.{ModuleImage}

-- A plan of which no write reaches the address.
abbrev PlanSpares : ℕ → Planned PatchPlan → Type 0
PlanSpares b (ok plan) = All (IsOutside b) plan.writes
PlanSpares b (err e) = Unit

abbrev TupleSpares : ℕ → PreparedTuple → Type 0
TupleSpares b p = All (IsOutside b) p.plan.writes

PlanLiesIn-PlanSpares :
    (image : ModuleImage) (scope : ScanScope) (b : ℕ) (r : Planned PatchPlan)
    → ¬ IsInScope image scope b
    → PlanLiesIn image scope r
    → PlanSpares b r
PlanLiesIn-PlanSpares image scope b (ok plan) out lies =
    All-map plan.writes (LiesIn-IsOutside image scope b out) lies
PlanLiesIn-PlanSpares image scope b (err e) out lies = tt

module _ {Pages : Type 0} ⦃os : Os Pages⦄ where
  make_plans-PlanSpares :
      (m : Machine Pages) (image : ModuleImage) (build : DuniaBuild) (b : ℕ)
      → ¬ IsPatchable image b
      → All (λ p. PlanSpares b p.1) (make_plans m image build)
  unfolding make_plans
  make_plans-PlanSpares m image build b out =
      let code : (r : Planned PatchPlan) → PlanLiesIn image code_scope r → PlanSpares b r =
        λ r. PlanLiesIn-PlanSpares image code_scope b r (λ h. out (inl h)) in
      (
        code _ (plan_jackal_tapes-LiesIn m image),
        (
          code _ (plan_devmode_always_on-LiesIn m image),
          (
            code _ (plan_predecessor_tapes-LiesIn m image build),
            (
              code _ (plan_machetes-LiesIn m image),
              (
                PlanLiesIn-PlanSpares image read_only_data b _ (λ h. out (inr h))
                    (plan_no_blinking_items-LiesIn m image build),
                tt,
              ),
            ),
          ),
        ),
      )

  push_planned-TupleSpares :
      (m : Machine Pages) (image : ModuleImage) (b : ℕ) (name : String) (result : Planned PatchPlan)
      (failures next_failures : List PlanFailure) (prepared next : List PreparedTuple)
      → push_planned m image name result (failures, prepared) ≡ ok (next_failures, next)
      → PlanSpares b result
      → All (TupleSpares b) prepared
      → All (TupleSpares b) next
  unfolding push_planned
  push_planned-TupleSpares m image b name (ok plan) failures next_failures prepared next e spares
        done =
      let (columns, described, whole) =
        >>=-eq-ok (map_err (original_unreadable name) (describe_writes m image.base plan.writes)) _
          e in
      subst (All (TupleSpares b)) (ap (λ q. q.1) (ok-injective whole))
        (All-append (TupleSpares b) prepared done spares)
  push_planned-TupleSpares m image b name (err error) failures next_failures prepared next e spares
        done =
      subst (All (TupleSpares b)) (ap (λ q. q.1) (ok-injective e)) done

  prepare_plans-TupleSpares :
      (m : Machine Pages) (image : ModuleImage) (b : ℕ) (plans : List (String × Planned PatchPlan))
      (failures last_failures : List PlanFailure) (prepared last : List PreparedTuple)
      → prepare_plans m image plans (failures, prepared) ≡ ok (last_failures, last)
      → All (λ p. PlanSpares b p.1) plans
      → All (TupleSpares b) prepared
      → All (TupleSpares b) last
  unfolding prepare_plans
  prepare_plans-TupleSpares m image b [] failures last_failures prepared last e spares done =
      subst (All (TupleSpares b)) (ap (λ q. q.1) (ok-injective e)) done
  prepare_plans-TupleSpares m image b ((name, result) ∷ plans) failures last_failures prepared last
        e (here, spares) done =
      let ((next_failures, next), pushed, rest) =
        >>=-eq-ok (push_planned m image name result (failures, prepared)) _ e in
      prepare_plans-TupleSpares m image b plans next_failures last_failures next last rest spares (
        push_planned-TupleSpares m image b name result failures next_failures prepared next pushed
          here done)

  apply_to_copy-frame :
      (b : ℕ) (ps : List PreparedTuple) (m : Machine Pages)
      → All (TupleSpares b) ps
      → (apply_to_copy m ps).1.bytes b ≡ m.bytes b
  unfolding apply_to_copy
  apply_to_copy-frame b [] m spares = refl
  apply_to_copy-frame b (p ∷ ps) m (here, spares) = elim (Result-cases (apply m p.plan).0) [
    | inr (e, failed_with) ↦ rw (failed_with, apply_to_copy) (apply-frame b m p.plan here)
    | inl (s, done) ↦
        rw (done, apply_to_copy)
          (apply_to_copy-frame b ps (apply m p.plan).1 spares ∙ apply-frame b m p.plan here)
  ]

  reapply_to_copy-frame :
      (b : ℕ) (plans : List (String × Planned PatchPlan)) (m : Machine Pages)
      → All (λ p. PlanSpares b p.1) plans
      → (reapply_to_copy m plans).1.bytes b ≡ m.bytes b
  unfolding reapply_to_copy
  reapply_to_copy-frame b [] m spares = refl
  reapply_to_copy-frame b ((name, err e) ∷ plans) m spares = refl
  reapply_to_copy-frame b ((name, ok plan) ∷ plans) m (here, spares) =
      elim (Result-cases (apply m plan).0) [
        | inr (e, failed_with) ↦ rw (failed_with, reapply_to_copy) (apply-frame b m plan here)
        | inl (applied, done) ↦ rw (done, reapply_to_copy) (apply-frame b m plan here)
        | inl (already_applied, done) ↦
            rw (done, reapply_to_copy)
              (reapply_to_copy-frame b plans (apply m plan).1 spares ∙ apply-frame b m plan here)
      ]

  try_plans-frame :
      (b : ℕ) (m : Machine Pages) (image : ModuleImage) (build : DuniaBuild)
      (prepared : List PreparedTuple)
      → ¬ IsPatchable image b
      → All (TupleSpares b) prepared
      → (try_plans m image build prepared).1.bytes b ≡ m.bytes b
  unfolding try_plans
  try_plans-frame b m image build prepared out spares =
      elim (Result-cases (validate_known_rvas build prepared)) [
        | inr (e, elsewhere) ↦ rw (elsewhere, try_plans) refl
        | inl (checked, known) ↦ elim (Result-cases (apply_to_copy m prepared).0) [
          | inr (e, failed_with) ↦
              rw (known, failed_with, try_plans) (apply_to_copy-frame b prepared m spares)
          | inl (patches, done) ↦
              let m' = (apply_to_copy m prepared).1 in
              rw (known, done, try_plans)
                (reapply_to_copy-frame b (make_plans m' image build) m'
                    (make_plans-PlanSpares m' image build b out)
                  ∙ apply_to_copy-frame b prepared m spares)
        ]
      ]

  pub validate_image-frame :
      (b : ℕ) (m : Machine Pages) (image : ModuleImage) (build : DuniaBuild)
      → ¬ IsPatchable image b
      → (validate_image m image build).1.bytes b ≡ m.bytes b
  unfolding validate_image
  validate_image-frame b m image build out =
      elim (Result-cases (prepare_plans m image (make_plans m image build) ([], []))) [
        | inr (e, unread) ↦ rw (unread, validate_image) refl
        | inl ((failures, prepared), planned) ↦
            let spares =
              prepare_plans-TupleSpares m image b (make_plans m image build) [] failures [] prepared
                planned (make_plans-PlanSpares m image build b out) tt in
            elim (Bool-cases (is_empty failures)) [
              | inl none_failed ↦
                  rw (planned, none_failed, validate_image)
                    (try_plans-frame b m image build prepared out spares)
              | inr some_failed ↦ rw (planned, some_failed, validate_image) refl
            ]
      ]
