-- ===== src/Offline/Success.antt =====
-- What a success of `validate_dunia_file` of src/patches/offline.rs says.
use fc2_systemdetection.Memory.Bytes.{Bytes, peek}
use fc2_systemdetection.Memory.Checked.{WriteState, already_applied, applied}
use fc2_systemdetection.Memory.Os.{Machine, Os}
use fc2_systemdetection.Offline.Known.{
  PreparedTuple, ValidatedPatch, already_present, check_rvas, find_rvas, no_patch_plan, same_name,
}
use fc2_systemdetection.Offline.Prepared.{ArePreparedFrom}
use fc2_systemdetection.Offline.Validate.{apply_to_copy, reapply_to_copy, state_of}
use fc2_systemdetection.Patches.Apply.{apply-already_applied, apply-patched, patched}
use fc2_systemdetection.Patches.Build.{DuniaBuild}
use fc2_systemdetection.Patches.Error.{Planned}
use fc2_systemdetection.Patches.Plan.{PatchPlan, apply}
use fc2_systemdetection.Prelude.{
  >>=-eq-ok, All, Bool-cases, List, Member, Result-cases, String, [], ap, arith, err, inl, inr,
  length, list_eq, list_eq_iff, map, ok, ok-injective, ok_or, ok_or-ok, refl, some, subst, sym,
  true, ℕ, ◌-◌, ◌∙◌, ◌∷◌, ◌≡◌,
}
use fc2_systemdetection.Text.{codes}

-- The bytes after all plans, in order.
abbrev pub patched_all : Bytes → List PatchPlan → Bytes
patched_all mem [] = mem
patched_all mem (plan ∷ plans) = patched_all (patched mem plan.writes) plans

-- A validated patch with the plan of its name: the RVAs of the plan's writes, the bytes of memory
-- at them, and the replacements.
pub record IsDescribed (mem : Bytes) (base : ℕ) (planned : String × Planned PatchPlan)
    (plan : PatchPlan) (v : ValidatedPatch) : Type 0 where
  pub name_is : v.name ≡ planned.0
  pub plan_is : planned.1 ≡ ok plan
  pub rvas_are : v.rvas ≡ map (λ w. w.address - base) plan.writes
  pub originals_are :
      v.original_bytes ≡ map (λ w. peek mem w.address (length w.expected)) plan.writes
  pub replacements_are : v.replacement_bytes ≡ map (λ w. w.replacement) plan.writes

-- One validated patch for each plan, in order.
abbrev pub AreDescribed :
    Bytes → ℕ → List (String × Planned PatchPlan) → List PatchPlan → List ValidatedPatch → Type 0
AreDescribed mem base [] [] [] = Unit
AreDescribed mem base [] [] (v ∷ vs) = ⊥
AreDescribed mem base [] (plan ∷ plans) vs = ⊥
AreDescribed mem base (x ∷ xs) [] vs = ⊥
AreDescribed mem base (x ∷ xs) (plan ∷ plans) [] = ⊥
AreDescribed mem base (x ∷ xs) (plan ∷ plans) (v ∷ vs) =
    IsDescribed mem base x plan v × AreDescribed mem base xs plans vs

-- The states, from the bytes before the first plan on: a patch that was already present changed
-- nothing.
abbrev pub AreStates : Bytes → List PatchPlan → List ValidatedPatch → Type 0
AreStates mem [] vs = Unit
AreStates mem (plan ∷ plans) [] = ⊥
AreStates mem (plan ∷ plans) (v ∷ vs) =
    (v.state ≡ already_present → patched mem plan.writes ≡ mem)
    × AreStates (patched mem plan.writes) plans vs

-- A patch of the name has these RVAs.
abbrev pub HasRvas : List ValidatedPatch → String × List ℕ → Type 0
HasRvas vs (name, rvas) =
    (v : ValidatedPatch) × Member v vs × (codes v.name ≡ codes name) × (v.rvas ≡ rvas)

HasRvas-later :
    (v : ValidatedPatch) (vs : List ValidatedPatch) (e : String × List ℕ)
    → HasRvas vs e
    → HasRvas (v ∷ vs) e
HasRvas-later v vs e (found, listed, name_is, rvas_are) = (found, inr listed, name_is, rvas_are)

pub check_rvas-ok :
    (build : DuniaBuild) (prepared : List PreparedTuple) (expected : List (String × List ℕ))
    → check_rvas build prepared expected ≡ ok tt
    → All (λ e. find_rvas e.0 prepared ≡ some e.1) expected
unfolding check_rvas
check_rvas-ok build prepared [] e = tt
check_rvas-ok build prepared ((name, rvas) ∷ rest) e =
    let (actual, found, e1) =
      >>=-eq-ok (ok_or (no_patch_plan name) (find_rvas name prepared)) _ e in
    elim (Bool-cases (list_eq actual rvas)) [
      | inr differ ↦ absurd (ground (arith, rw differ at e1))
      | inl equal ↦ (
        ok_or-ok _ (find_rvas name prepared) found ∙ ap some ((list_eq_iff actual rvas).0 equal),
        check_rvas-ok build prepared rest (rw equal at e1),
      )
    ]

-- The plans that are found on the patched copy put nothing in that is not there.
abbrev pub ArePresent : Bytes → List (String × Planned PatchPlan) → Type 0
ArePresent mem = All (λ p. (plan : PatchPlan) × (p.1 ≡ ok plan) × (patched mem plan.writes ≡ mem))

-- What the loop that applies the prepared patches gives.
pub record IsApplied (mem0 mem mem' : Bytes) (base : ℕ)
    (planned : List (String × Planned PatchPlan)) (ps : List PreparedTuple)
    (vs : List ValidatedPatch) : Type 0 where
  pub plans : List PatchPlan
  pub described : AreDescribed mem0 base planned plans vs
  pub written : mem' ≡ patched_all mem plans
  pub states : AreStates mem plans vs
  pub found :
      (name : String) (rvas : List ℕ) → find_rvas name ps ≡ some rvas → HasRvas vs (name, rvas)

same_name-codes : (a b : String) → same_name a b ≡ true → codes a ≡ codes b
same_name-codes a b h = (list_eq_iff (codes a) (codes b)).0 h

module _ {Pages : Type 0} ⦃os : Os Pages⦄ where
  state_of_already :
      (m m' : Machine Pages) (plan : PatchPlan) (state : WriteState)
      → apply m plan ≡ (ok state, m')
      → state_of state ≡ already_present
      → patched m.bytes plan.writes ≡ m.bytes
  state_of_already m m' plan applied done h = cc
  state_of_already m m' plan already_applied done h =
      sym (apply-patched m m' plan already_applied done) ∙ apply-already_applied m m' plan done

  pub apply_to_copy-IsApplied :
      (mem0 : Bytes) (base : ℕ) (planned : List (String × Planned PatchPlan))
      (ps : List PreparedTuple) (m : Machine Pages) (vs : List ValidatedPatch)
      → ArePreparedFrom mem0 base planned ps
      → (apply_to_copy m ps).0 ≡ ok vs
      → IsApplied mem0 m.bytes (apply_to_copy m ps).1.bytes base planned ps vs
  unfolding apply_to_copy find_rvas
  apply_to_copy-IsApplied mem0 base [] [] m vs from e =
      subst (IsApplied mem0 m.bytes m.bytes base [] []) (ok-injective e) (record {
        plans = [];
        described = tt;
        written = refl;
        states = tt;
        found = λ name rvas h. cc;
      })
  apply_to_copy-IsApplied mem0 base [] (p ∷ ps) m vs from e = absurd from
  apply_to_copy-IsApplied mem0 base (x ∷ xs) [] m vs from e = absurd from
  apply_to_copy-IsApplied mem0 base (x ∷ xs) (p ∷ ps) m vs (here, from) e =
      elim (Result-cases (apply m p.plan).0) [
        | inr (error, failed_with) ↦ cc
        | inl (s, done) ↦
            let m' = (apply m p.plan).1 in
            let (patches, rest_done, whole) =
              >>=-eq-ok (apply_to_copy m' ps).0 _ (rw (done, apply_to_copy) at e) in
            let r = apply_to_copy-IsApplied mem0 base xs ps m' patches from rest_done in
            let first = apply-patched m m' p.plan s (ap (λ o. (o, m')) done) in
            subst (IsApplied mem0 m.bytes (apply_to_copy m (p ∷ ps)).1.bytes base (x ∷ xs) (p ∷ ps))
              (ok-injective whole)
              (record {
                plans = p.plan ∷ r.plans;
                described = (
                  record {
                    name_is = here.name_is;
                    plan_is = here.plan_is;
                    rvas_are = here.rvas_are;
                    originals_are = here.originals_are;
                    replacements_are = here.replacements_are;
                  },
                  r.described,
                );
                written =
                    rw (done, apply_to_copy)
                      (r.written ∙ ap (λ mem. patched_all mem r.plans) first);
                states = (
                  state_of_already m m' p.plan s (ap (λ o. (o, m')) done),
                  subst (λ mem. AreStates mem r.plans patches) first r.states,
                );
                found = λ name rvas h. elim (Bool-cases (same_name p.name name)) [
                  | inl named ↦ (
                    _,
                    inl refl,
                    same_name-codes p.name name named,
                    ground (arith, rw (named, find_rvas) at h),
                  )
                  | inr other ↦
                      HasRvas-later _ patches (name, rvas)
                        (r.found name rvas (rw (other, find_rvas) at h))
                ];
              })
      ]

  pub reapply_to_copy-ArePresent :
      (plans : List (String × Planned PatchPlan)) (m : Machine Pages)
      → (reapply_to_copy m plans).0 ≡ ok tt
      → ArePresent m.bytes plans × ((reapply_to_copy m plans).1.bytes ≡ m.bytes)
  unfolding reapply_to_copy
  reapply_to_copy-ArePresent [] m e = (tt, refl)
  reapply_to_copy-ArePresent ((name, err error) ∷ plans) m e = cc
  reapply_to_copy-ArePresent ((name, ok plan) ∷ plans) m e = elim (Result-cases (apply m plan).0) [
    | inr (error, failed_with) ↦ absurd (ground (arith, rw (failed_with, reapply_to_copy) at e))
    | inl (applied, done) ↦ absurd (ground (arith, rw (done, reapply_to_copy) at e))
    | inl (already_applied, done) ↦
        let m' = (apply m plan).1 in
        let whole = ap (λ o. (o, m')) done in
        let same = apply-already_applied m m' plan whole in
        let (present, kept) =
          reapply_to_copy-ArePresent plans m' (rw (done, reapply_to_copy) at e) in
        (
          (
            (plan, refl, sym (apply-patched m m' plan already_applied whole) ∙ same),
            subst (λ mem. ArePresent mem plans) same present,
          ),
          rw (done, reapply_to_copy) (kept ∙ same),
        )
  ]
