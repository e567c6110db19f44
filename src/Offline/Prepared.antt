-- ===== src/Offline/Prepared.antt =====
-- What the first loop of `validate_dunia_file` of src/patches/offline.rs prepares.
use mathlib.Core.List.{append-nil, append_assoc}
use fc2_systemdetection.Memory.Bytes.{Bytes, peek}
use fc2_systemdetection.Memory.Checked.{read_bytes}
use fc2_systemdetection.Memory.Os.{Machine, Os}
use fc2_systemdetection.Memory.Reads.{read_bytes-eq-peek}
use fc2_systemdetection.Offline.Known.{PlanFailure, PreparedTuple, original_unreadable}
use fc2_systemdetection.Offline.Prepare.{Columns, describe_writes, prepare_plans, push_planned}
use fc2_systemdetection.Patches.Error.{Planned}
use fc2_systemdetection.Patches.Plan.{CheckedWrite, PatchPlan}
use fc2_systemdetection.Prelude.{
  >>=-eq-ok, List, String, [], ap, ap₂, arith, err, is_empty, length, map, map_err, map_err-ok, ok,
  ok-injective, refl, subst, sym, true, ℕ, ◌++◌, ◌-◌, ◌∙◌, ◌∷◌, ◌≡◌,
}
use fc2_systemdetection.Scan.Image.{ModuleImage}

-- A prepared patch, with the plan that it has been made of.
pub record IsPreparedFrom (mem : Bytes) (base : ℕ) (planned : String × Planned PatchPlan)
    (p : PreparedTuple) : Type 0 where
  pub name_is : p.name ≡ planned.0
  pub plan_is : planned.1 ≡ ok p.plan
  pub rvas_are : p.rvas ≡ map (λ w. w.address - base) p.plan.writes
  pub originals_are :
      p.original_bytes ≡ map (λ w. peek mem w.address (length w.expected)) p.plan.writes
  pub replacements_are : p.replacement_bytes ≡ map (λ w. w.replacement) p.plan.writes

abbrev pub ArePreparedFrom :
    Bytes → ℕ → List (String × Planned PatchPlan) → List PreparedTuple → Type 0
ArePreparedFrom mem base [] [] = Unit
ArePreparedFrom mem base [] (p ∷ ps) = ⊥
ArePreparedFrom mem base (x ∷ xs) [] = ⊥
ArePreparedFrom mem base (x ∷ xs) (p ∷ ps) =
    IsPreparedFrom mem base x p × ArePreparedFrom mem base xs ps

record AreColumnsOf (mem : Bytes) (base : ℕ) (ws : List CheckedWrite) (c : Columns) : Type 0 where
  pub rvas_are : c.rvas ≡ map (λ w. w.address - base) ws
  pub originals_are : c.original_bytes ≡ map (λ w. peek mem w.address (length w.expected)) ws
  pub replacements_are : c.replacement_bytes ≡ map (λ w. w.replacement) ws

module _ {Pages : Type 0} ⦃os : Os Pages⦄ where
  describe_writes-AreColumnsOf :
      (m : Machine Pages) (base : ℕ) (ws : List CheckedWrite) (c : Columns)
      → describe_writes m base ws ≡ ok c
      → AreColumnsOf m.bytes base ws c
  unfolding describe_writes
  describe_writes-AreColumnsOf m base [] c e =
      subst (AreColumnsOf m.bytes base []) (ok-injective e)
        (record { rvas_are = refl; originals_are = refl; replacements_are = refl })
  describe_writes-AreColumnsOf m base (w ∷ ws) c e =
      let (original, found, e1) = >>=-eq-ok (read_bytes m w.address (length w.expected)) _ e in
      let (rest, described, whole) = >>=-eq-ok (describe_writes m base ws) _ e1 in
      let r = describe_writes-AreColumnsOf m base ws rest described in
      subst (AreColumnsOf m.bytes base (w ∷ ws)) (ok-injective whole) (record {
        rvas_are = ap (λ t. (w.address - base) ∷ t) r.rvas_are;
        originals_are =
            ap₂ ◌∷◌ (read_bytes-eq-peek m w.address (length w.expected) found) r.originals_are;
        replacements_are = ap (λ t. w.replacement ∷ t) r.replacements_are;
      })

  -- Failures that have been pushed stay.
  push_planned_failures :
      (m : Machine Pages) (image : ModuleImage) (name : String) (result : Planned PatchPlan)
      (failures : List PlanFailure) (prepared : List PreparedTuple)
      (next : List PlanFailure × List PreparedTuple)
      → push_planned m image name result (failures, prepared) ≡ ok next
      → is_empty next.0 ≡ true
      → (p : PreparedTuple) × IsPreparedFrom m.bytes image.base (name, result) p
        × (next ≡ (failures, prepared ++ (p ∷ [])))
  unfolding push_planned
  push_planned_failures m image name (ok plan) failures prepared next e none_failed =
      let (columns, described, whole) =
        >>=-eq-ok (map_err (original_unreadable name) (describe_writes m image.base plan.writes)) _
          e in
      let c =
        describe_writes-AreColumnsOf m image.base plan.writes columns
          (map_err-ok (original_unreadable name) _ described) in
      (
        _,
        record {
          name_is = refl;
          plan_is = refl;
          rvas_are = c.rvas_are;
          originals_are = c.originals_are;
          replacements_are = c.replacements_are;
        },
        sym (ok-injective whole),
      )
  push_planned_failures m image name (err error) [] prepared next e none_failed =
      absurd (ground (arith, ok-injective e))
  push_planned_failures m image name (err error) (x ∷ xs) prepared next e none_failed =
      absurd (ground (arith, ok-injective e))

  -- Where no failure is left, each plan has been prepared, in order.
  pub prepare_plans-ArePreparedFrom :
      (m : Machine Pages) (image : ModuleImage) (plans : List (String × Planned PatchPlan))
      (failures : List PlanFailure) (prepared : List PreparedTuple)
      (last : List PlanFailure × List PreparedTuple)
      → prepare_plans m image plans (failures, prepared) ≡ ok last
      → is_empty last.0 ≡ true
      → (is_empty failures ≡ true)
        × (ps : List PreparedTuple) × ArePreparedFrom m.bytes image.base plans ps
        × (last.1 ≡ prepared ++ ps)
  unfolding prepare_plans
  prepare_plans-ArePreparedFrom m image [] failures prepared last e none_failed =
      let same : (failures, prepared) ≡ last = ok-injective e in
      (
        ap (λ q. is_empty q.0) same ∙ none_failed,
        [],
        tt,
        sym (ap (λ q. q.1) same) ∙ sym (append-nil prepared),
      )
  prepare_plans-ArePreparedFrom m image ((name, result) ∷ plans) failures prepared last e
        none_failed =
      let (next, pushed, rest) =
        >>=-eq-ok (push_planned m image name result (failures, prepared)) _ e in
      let (next_empty, ps, from, last_is) =
        prepare_plans-ArePreparedFrom m image plans next.0 next.1 last rest none_failed in
      let (p, p_from, next_is) =
        push_planned_failures m image name result failures prepared next pushed next_empty in
      (
        sym (ap (λ q. is_empty q.0) next_is) ∙ next_empty,
        p ∷ ps,
        (p_from, from),
        last_is ∙ ap (λ q. q.1 ++ ps) next_is ∙ append_assoc prepared (p ∷ []) ps,
      )
