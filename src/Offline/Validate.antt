-- ===== src/Offline/Validate.antt =====
-- `validate_dunia_file` of src/patches/offline.rs.
use fc2_systemdetection.Memory.Bytes.{Bytes}
use fc2_systemdetection.Memory.Checked.{WriteState, already_applied, applied}
use fc2_systemdetection.Memory.Os.{Machine, Os}
use fc2_systemdetection.Offline.Known.{
  DuniaFileValidation, OfflinePatchState, PreparedTuple, ValidatedPatch, ValidationError,
  already_present, applied_to_copy, apply_to_copy_failed, could_not_map, could_not_read,
  could_not_replan, not_idempotent, reapply_to_copy_failed, static_validation_failed,
  validate_known_rvas,
}
use fc2_systemdetection.Offline.Prepare.{make_plans, prepare_plans}
use fc2_systemdetection.Patches.Build.{DuniaBuild, from_file_size}
use fc2_systemdetection.Patches.Error.{Planned}
use fc2_systemdetection.Patches.Plan.{PatchPlan, apply}
use fc2_systemdetection.Prelude.{
  List, Result, String, [], err, if◌then◌else◌, is_empty, leb, length, ltb, ok, some, ℕ, ◌&&◌, ◌+◌,
  ◌-◌, ◌>>=◌, ◌∷◌,
}
use fc2_systemdetection.Scan.FileImage.{from_pe_file}
use fc2_systemdetection.Scan.Image.{ModuleImage}
use fc2_systemdetection.Scan.Range.{Portex}

-- The process once the copy stands at `base`.
abbrev pub with_mapping : Bytes → ℕ → ℕ → Bytes → Bytes
with_mapping mem base size mapping a =
    if leb base a && ltb a (base + size) then mapping (a - base) else mem a

-- The state of a patch that has been applied to the copy.
abbrev pub state_of : WriteState → OfflinePatchState
state_of applied = applied_to_copy
state_of already_applied = already_present

module _ {Pages : Type 0} ⦃os : Os Pages⦄ where
  -- The loop that applies the prepared patches, with the vector `patches`.
  unfoldable pub apply_to_copy :
      Machine Pages
      → List PreparedTuple
      → Result ValidationError (List ValidatedPatch) × Machine Pages
  apply_to_copy m [] = (ok [], m)
  apply_to_copy m (p ∷ ps) =
      let (result, m') = apply m p.plan in
      elim result [
        | err error ↦ (err (apply_to_copy_failed p.name error), m')
        | ok state ↦
            let (rest, m'') = apply_to_copy m' ps in
            (
              rest >>= λ patches. ok (
                  record {
                    name = p.name;
                    rvas = p.rvas;
                    original_bytes = p.original_bytes;
                    replacement_bytes = p.replacement_bytes;
                    state = state_of state;
                  }
                  ∷ patches),
              m'',
            )
      ]

  -- The loop that applies the plans of the patched copy again.
  unfoldable pub reapply_to_copy :
      Machine Pages
      → List (String × Planned PatchPlan)
      → Result ValidationError (Unit {0}) × Machine Pages
  reapply_to_copy m [] = (ok tt, m)
  reapply_to_copy m ((name, err error) ∷ rest) = (err (could_not_replan name error), m)
  reapply_to_copy m ((name, ok plan) ∷ rest) =
      let (result, m') = apply m plan in
      elim result [
        | err error ↦ (err (reapply_to_copy_failed name error), m')
        | ok state ↦ elim state [
          | applied ↦ (err (not_idempotent name), m')
          | already_applied ↦ reapply_to_copy m' rest
        ]
      ]

  -- From the call of `validate_known_rvas` on.
  unfoldable pub try_plans :
      Machine Pages
      → ModuleImage
      → DuniaBuild
      → List PreparedTuple
      → Result ValidationError (List ValidatedPatch) × Machine Pages
  unfolding apply_to_copy reapply_to_copy make_plans
  try_plans m image build prepared = elim (validate_known_rvas build prepared) [
    | err error ↦ (err error, m)
    | ok checked ↦
        let (result, m') = apply_to_copy m prepared in
        elim result [
          | err error ↦ (err error, m')
          | ok patches ↦
              let (again, m'') = reapply_to_copy m' (make_plans m' image build) in
              (again >>= λ done. ok patches, m'')
        ]
  ]

  -- From the first loop on, with the copy in place.
  unfoldable pub validate_image :
      Machine Pages
      → ModuleImage
      → DuniaBuild
      → Result ValidationError (List ValidatedPatch) × Machine Pages
  unfolding prepare_plans make_plans try_plans
  validate_image m image build = elim (prepare_plans m image (make_plans m image build) ([], [])) [
    | err error ↦ (err error, m)
    | ok (failures, prepared) ↦
        if is_empty failures
        then try_plans m image build prepared
        else (err (static_validation_failed build failures), m)
  ]

  -- `validate_dunia_file`; `read` is the outcome of `std::fs::read`, `heap` the address at which the
  -- allocator puts the copy, and `m` the process with the pages that it has then.
  unfoldable pub validate_dunia_file :
      {PortexError : Type 0}
      → Portex PortexError
      → Machine Pages
      → ℕ
      → Result String (List ℕ)
      → Result ValidationError DuniaFileValidation × Machine Pages
  unfolding validate_image from_file_size
  validate_dunia_file portex m heap (err error) = (err (could_not_read error), m)
  validate_dunia_file portex m heap (ok file) =
      let build = from_file_size (some (length file)) in
      elim (from_pe_file portex heap file) [
        | err error ↦ (err (could_not_map error), m)
        | ok mapped ↦
            let image = mapped.image in
            let (result, m') =
              validate_image
                (record m { bytes = with_mapping m.bytes heap image.size mapped.mapping }) image
                build in
            (
              result >>= λ patches. ok (record {
                build = build;
                file_size = length file;
                image_size = image.size;
                patches = patches;
              }),
              m',
            )
      ]
