-- ===== src/Offline/Tried.antt =====
-- The result of `validate_dunia_file` of src/patches/offline.rs where it succeeds.
use fc2_systemdetection.Memory.Bytes.{Bytes}
use fc2_systemdetection.Memory.Os.{Machine, Os}
use fc2_systemdetection.Offline.Known.{
  DuniaFileValidation, PreparedTuple, ValidatedPatch, ValidationError, find_rvas, known_rvas,
  static_validation_failed, validate_known_rvas,
}
use fc2_systemdetection.Offline.Prepare.{make_plans, prepare_plans}
use fc2_systemdetection.Offline.Prepared.{ArePreparedFrom, prepare_plans-ArePreparedFrom}
use fc2_systemdetection.Offline.Success.{
  AreDescribed, ArePresent, AreStates, HasRvas, apply_to_copy-IsApplied, check_rvas-ok, patched_all,
  reapply_to_copy-ArePresent,
}
use fc2_systemdetection.Offline.Validate.{
  apply_to_copy, reapply_to_copy, try_plans, validate_dunia_file, validate_image, with_mapping,
}
use fc2_systemdetection.Patches.Build.{DuniaBuild, from_file_size}
use fc2_systemdetection.Patches.Error.{PatchError, Planned}
use fc2_systemdetection.Patches.Plan.{PatchPlan}
use fc2_systemdetection.Prelude.{
  >>=-eq-ok, All, All-map, Bool-cases, List, Member, Result-cases, String, [], ap, arith, err, inl,
  inr, is_empty, length, ok, ok-injective, refl, some, subst, sym, ℕ, ◌∙◌, ◌∷◌, ◌≡◌,
}
use fc2_systemdetection.Scan.FileImage.{FileMappedModule, from_pe_file}
use fc2_systemdetection.Scan.Image.{ModuleImage}
use fc2_systemdetection.Scan.Range.{Portex}

-- What a success says of the copy, in the process `m` before and `m'` after: the patches that are
-- reported are the plans made on the copy, those of a known build have its RVAs, memory has been
-- patched with all of them, and the plans that are then made put nothing in that is not there.
pub record IsTried {Pages : Type 0} ⦃os : Os Pages⦄ (m m' : Machine Pages) (image : ModuleImage)
    (build : DuniaBuild) (patches : List ValidatedPatch) : Type 0 where
  pub plans : List PatchPlan
  pub described : AreDescribed m.bytes image.base (make_plans m image build) plans patches
  pub known :
      (expected : List (String × List ℕ))
      → known_rvas build ≡ some expected
      → All (HasRvas patches) expected
  pub written : m'.bytes ≡ patched_all m.bytes plans
  pub states : AreStates m.bytes plans patches
  pub planned_again : Machine Pages
  pub same_bytes : planned_again.bytes ≡ m'.bytes
  pub present : ArePresent m'.bytes (make_plans planned_again image build)

known_found :
    (build : DuniaBuild) (prepared : List PreparedTuple)
    → validate_known_rvas build prepared ≡ ok tt
    → (expected : List (String × List ℕ)) → known_rvas build ≡ some expected
    → All (λ e. find_rvas e.0 prepared ≡ some e.1) expected
unfolding validate_known_rvas
known_found build prepared e expected known =
    check_rvas-ok build prepared expected (rw (known, validate_known_rvas) at e)

module _ {Pages : Type 0} ⦃os : Os Pages⦄ where
  try_plans-IsTried :
      (m : Machine Pages) (image : ModuleImage) (build : DuniaBuild) (prepared : List PreparedTuple)
      (patches : List ValidatedPatch)
      → ArePreparedFrom m.bytes image.base (make_plans m image build) prepared
      → (try_plans m image build prepared).0 ≡ ok patches
      → IsTried m (try_plans m image build prepared).1 image build patches
  unfolding try_plans
  try_plans-IsTried m image build prepared patches from e =
      elim (Result-cases (validate_known_rvas build prepared)) [
        | inr (error, elsewhere) ↦ absurd (ground (arith, rw (elsewhere, try_plans) at e))
        | inl (passed_check, checked) ↦ elim (Result-cases (apply_to_copy m prepared).0) [
          | inr (error, failed_with) ↦
              absurd (ground (arith, rw (checked, failed_with, try_plans) at e))
          | inl (vs, done) ↦
              let m1 = (apply_to_copy m prepared).1 in
              let plans_again = make_plans m1 image build in
              let (passed_again, again, whole) =
                >>=-eq-ok (reapply_to_copy m1 plans_again).0 _
                  (rw (checked, done, try_plans) at e) in
              let a =
                apply_to_copy-IsApplied m.bytes image.base (make_plans m image build) prepared m vs
                  from done in
              let (present, kept) = reapply_to_copy-ArePresent plans_again m1 again in
              let end_is : (try_plans m image build prepared).1
                  ≡ (reapply_to_copy m1 plans_again).1 =
                rw (checked, done, try_plans) refl in
              rw end_is (
                rw (sym (ok-injective whole)) (record {
                  plans = a.plans;
                  described = a.described;
                  known = λ expected known.
                      All-map expected (λ x found. a.found x.0 x.1 found)
                        (known_found build prepared checked expected known);
                  written = kept ∙ a.written;
                  states = a.states;
                  planned_again = m1;
                  same_bytes = sym kept;
                  present = subst (λ mem. ArePresent mem plans_again) (sym kept) present;
                }))
        ]
      ]

  validate_image-IsTried :
      (m : Machine Pages) (image : ModuleImage) (build : DuniaBuild) (patches : List ValidatedPatch)
      → (validate_image m image build).0 ≡ ok patches
      → IsTried m (validate_image m image build).1 image build patches
  unfolding validate_image
  validate_image-IsTried m image build patches e =
      elim (Result-cases (prepare_plans m image (make_plans m image build) ([], []))) [
        | inr (error, unread) ↦ absurd (ground (arith, rw (unread, validate_image) at e))
        | inl ((failures, prepared), planned) ↦ elim (Bool-cases (is_empty failures)) [
          | inr some_failed ↦
              absurd (ground (arith, rw (planned, some_failed, validate_image) at e))
          | inl none_failed ↦
              let (start, ps, from, prepared_is) =
                prepare_plans-ArePreparedFrom m image (make_plans m image build) [] []
                  (failures, prepared) planned none_failed in
              let from' =
                subst (ArePreparedFrom m.bytes image.base (make_plans m image build))
                  (sym prepared_is) from in
              rw (planned, none_failed, validate_image)
                (try_plans-IsTried m image build prepared patches from'
                  (rw (planned, none_failed, validate_image) at e))
        ]
      ]

-- What `validate_dunia_file` returns for a file that it accepts.
pub record IsValidation {Pages PortexError : Type 0} ⦃os : Os Pages⦄ (portex : Portex PortexError)
    (m m' : Machine Pages) (heap : ℕ) (file : List ℕ) (v : DuniaFileValidation) : Type 0 where
  pub mapped : FileMappedModule
  pub made : from_pe_file portex heap file ≡ ok mapped
  pub build_is : v.build ≡ from_file_size (some (length file))
  pub file_size_is : v.file_size ≡ length file
  pub image_size_is : v.image_size ≡ mapped.image.size
  pub tried :
      IsTried
        (record m { bytes = with_mapping m.bytes heap mapped.image.size mapped.mapping })
        m'
        mapped.image
        v.build
        v.patches

-- A file that `validate_dunia_file` accepts has been mapped; each of its validated patches is a plan
-- that the planners make on the copy, with the RVAs and the bytes of the copy there, and a known
-- build has its known RVAs; the copy has been patched with all plans, a patch reported as already
-- present changed nothing, and plans made on the patched copy put nothing in that is not there.
pub validate_dunia_file-ok :
    {Pages PortexError : Type 0} ⦃os : Os Pages⦄ (portex : Portex PortexError) (m : Machine Pages)
    (heap : ℕ) (file : List ℕ) (v : DuniaFileValidation)
    → (validate_dunia_file portex m heap (ok file)).0 ≡ ok v
    → IsValidation portex m (validate_dunia_file portex m heap (ok file)).1 heap file v
unfolding validate_dunia_file
validate_dunia_file-ok portex m heap file v e =
    elim (Result-cases (from_pe_file portex heap file)) [
      | inr (error, refused) ↦ absurd (ground (arith, rw (refused, validate_dunia_file) at e))
      | inl (mapped, made) ↦
          let build = from_file_size (some (length file)) in
          let copy : Machine _ = record m {
            bytes = with_mapping m.bytes heap mapped.image.size mapped.mapping;
          } in
          let (patches, tried, whole) =
            >>=-eq-ok (validate_image copy mapped.image build).0 _
              (rw (made, validate_dunia_file) at e) in
          let end_is : (validate_dunia_file portex m heap (ok file)).1
              ≡ (validate_image copy mapped.image build).1 =
            rw (made, validate_dunia_file) refl in
          rw end_is (
            subst (IsValidation portex m (validate_image copy mapped.image build).1 heap file)
              (ok-injective whole)
              (record {
                mapped = mapped;
                made = made;
                build_is = refl;
                file_size_is = refl;
                image_size_is = refl;
                tried = validate_image-IsTried copy mapped.image build patches tried;
              }))
    ]

-- An err among the plans, where each has been prepared.
all_planned :
    (mem : Bytes) (base : ℕ) (plans : List (String × Planned PatchPlan)) (ps : List PreparedTuple)
    (name : String) (error : PatchError)
    → ArePreparedFrom mem base plans ps
    → ¬ Member (name, err error) plans
all_planned mem base [] ps name error from absent = absent
all_planned mem base (x ∷ xs) [] name error from listed = from
all_planned mem base (x ∷ xs) (p ∷ ps) name error (here, from) (inl same) =
    let fails : ◌≡◌ {A = Planned PatchPlan} (err error) (ok p.plan) =
      ap (λ y. y.1) same ∙ here.plan_is in
    cc
all_planned mem base (x ∷ xs) (p ∷ ps) name error (here, from) (inr later) =
    all_planned mem base xs ps name error from later

-- If one of the five planners fails on the copy, the validation of the copy fails and has written
-- nothing: no plan is applied unless all have been made.
pub validate_image-planner_failed :
    {Pages : Type 0} ⦃os : Os Pages⦄ (m : Machine Pages) (image : ModuleImage) (build : DuniaBuild)
    (name : String) (error : PatchError)
    → Member (name, err error) (make_plans m image build)
    → (e : ValidationError) × (validate_image m image build ≡ (err e, m))
unfolding validate_image
validate_image-planner_failed m image build name error listed =
    elim (Result-cases (prepare_plans m image (make_plans m image build) ([], []))) [
      | inr (e, unread) ↦ (e, rw (unread, validate_image) refl)
      | inl ((failures, prepared), planned) ↦ elim (Bool-cases (is_empty failures)) [
        | inr some_failed ↦ (
          static_validation_failed build failures,
          rw (planned, some_failed, validate_image) refl,
        )
        | inl none_failed ↦
            let (start, ps, from, prepared_is) =
              prepare_plans-ArePreparedFrom m image (make_plans m image build) [] []
                (failures, prepared) planned none_failed in
            absurd
              (all_planned m.bytes image.base (make_plans m image build) ps name error from listed)
      ]
    ]
