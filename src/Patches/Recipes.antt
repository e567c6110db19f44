-- ===== src/Patches/Recipes.antt =====
-- The RVAs of known builds and the five planners of src/patches/mod.rs.
use fc2_systemdetection.Patches.Signatures
use fc2_systemdetection.Memory.Os.{Machine, Os}
use fc2_systemdetection.Patches.Build.{DuniaBuild, retail, steam, ubisoft, unknown}
use fc2_systemdetection.Patches.Error.{Planned, from_scan}
use fc2_systemdetection.Patches.Plan.{PatchPlan, new, single, validated}
use fc2_systemdetection.Patches.Signatures.{
  arch_blink, devmode_always_on, jackal_tapes, machetes, mesh_highlight, predecessor_tapes_steam,
  save_disk,
}
use fc2_systemdetection.Patches.Target.{checked_known_signature_write, find_signature_target}
use fc2_systemdetection.Prelude.{List, Option, [], none, some, ℕ, ◌>>=◌, ◌∷◌}
use fc2_systemdetection.Scan.Error.{ScanScope, code_scope, read_only_data}
use fc2_systemdetection.Scan.Image.{ModuleImage, address_from_rva}
use fc2_systemdetection.Text.{Text}

abbrev pub retail_predecessor_rva : ℕ
retail_predecessor_rva = 0x0004_8987

-- The RVAs of the three writes of `no_blinking_items`: mesh, arch, save.
abbrev pub steam_no_blink_rvas : ℕ × ℕ × ℕ
steam_no_blink_rvas = (0x00E4_9D08, 0x00E1_15B8, 0x00E9_33B3)

abbrev pub retail_no_blink_rvas : ℕ × ℕ × ℕ
retail_no_blink_rvas = (0x00DC_1A94, 0x00D8_B3B0, 0x00E0_AFC2)

abbrev pub known_no_blink_rvas : DuniaBuild → Option (ℕ × ℕ × ℕ)
known_no_blink_rvas steam = some steam_no_blink_rvas
known_no_blink_rvas ubisoft = some steam_no_blink_rvas
known_no_blink_rvas retail = some retail_no_blink_rvas
known_no_blink_rvas (unknown size) = none

-- The byte strings of `no_blinking_items`: b"_", b"k", b"\0", and b".".
abbrev pub underscore : List ℕ
underscore = b'_' ∷ []

abbrev pub letter_k : List ℕ
letter_k = b'k' ∷ []

abbrev pub nul : List ℕ
nul = 0 ∷ []

abbrev pub dot : List ℕ
dot = b'.' ∷ []

module _ {Pages : Type 0} ⦃os : Os Pages⦄ where
  -- Find the target by the signature, and plan the one write to it.
  abbrev pub plan_signature :
      Machine Pages → ModuleImage → Text → ScanScope → ℕ → List ℕ → List ℕ → Planned PatchPlan
  plan_signature m image signature scope offset expected replacement =
      find_signature_target m image signature scope offset expected replacement >>= λ target.
      single m target expected replacement

  unfoldable pub plan_jackal_tapes : Machine Pages → ModuleImage → Planned PatchPlan
  plan_jackal_tapes m image =
      plan_signature m image Signatures.jackal_tapes code_scope 5 (0x0A ∷ []) (0x14 ∷ [])

  unfoldable pub plan_devmode_always_on : Machine Pages → ModuleImage → Planned PatchPlan
  plan_devmode_always_on m image =
      plan_signature m image Signatures.devmode_always_on code_scope 8 (0x75 ∷ []) (0xEB ∷ [])

  -- The arm of `plan_predecessor_tapes` for the builds that are not `Retail`.
  unfoldable pub plan_predecessor_by_signature : Machine Pages → ModuleImage → Planned PatchPlan
  plan_predecessor_by_signature m image =
      plan_signature m image Signatures.predecessor_tapes_steam code_scope 5 (0x74 ∷ 0x16 ∷ [])
        (0xEB ∷ 0x0E ∷ [])

  unfoldable pub plan_predecessor_tapes :
      Machine Pages → ModuleImage → DuniaBuild → Planned PatchPlan
  unfolding plan_predecessor_by_signature
  plan_predecessor_tapes m image retail =
      from_scan (address_from_rva image retail_predecessor_rva 2 code_scope) >>= λ target.
      single m target (0x8A ∷ 0xC3 ∷ []) (0xB0 ∷ 0x01 ∷ [])
  plan_predecessor_tapes m image steam = plan_predecessor_by_signature m image
  plan_predecessor_tapes m image ubisoft = plan_predecessor_by_signature m image
  plan_predecessor_tapes m image (unknown size) = plan_predecessor_by_signature m image

  unfoldable pub plan_machetes : Machine Pages → ModuleImage → Planned PatchPlan
  plan_machetes m image =
      plan_signature m image Signatures.machetes code_scope 0x69 (0x8A ∷ 0xC3 ∷ [])
        (0xB0 ∷ 0x01 ∷ [])

  -- `plan_no_blinking_items` where the RVAs are known.
  unfoldable pub plan_known_no_blinking :
      Machine Pages → ModuleImage → ℕ × ℕ × ℕ → Planned PatchPlan
  plan_known_no_blinking m image (mesh_rva, arch_rva, save_rva) =
      checked_known_signature_write m image Signatures.mesh_highlight read_only_data mesh_rva 4
        underscore dot
      >>= λ mesh.
          checked_known_signature_write m image Signatures.arch_blink read_only_data arch_rva 8
            letter_k dot
          >>= λ arch.
              checked_known_signature_write m image Signatures.save_disk read_only_data save_rva 31
                nul dot
              >>= λ save. new (mesh ∷ arch ∷ save ∷ [])

  -- `plan_no_blinking_items` where they are not.
  unfoldable pub plan_found_no_blinking : Machine Pages → ModuleImage → Planned PatchPlan
  plan_found_no_blinking m image =
      find_signature_target m image Signatures.mesh_highlight read_only_data 4 underscore dot
      >>= λ mesh_highlight.
          find_signature_target m image Signatures.arch_blink read_only_data 8 letter_k dot
          >>= λ arch_blink.
              find_signature_target m image Signatures.save_disk read_only_data 31 nul dot
              >>= λ save_disk. validated m mesh_highlight underscore dot >>= λ mesh.
                  validated m arch_blink letter_k dot >>= λ arch.
                  validated m save_disk nul dot >>= λ save. new (mesh ∷ arch ∷ save ∷ [])

  unfoldable pub plan_no_blinking_items :
      Machine Pages → ModuleImage → DuniaBuild → Planned PatchPlan
  unfolding plan_known_no_blinking plan_found_no_blinking
  plan_no_blinking_items m image build = elim (known_no_blink_rvas build) [
    | some rvas ↦ plan_known_no_blinking m image rvas
    | none ↦ plan_found_no_blinking m image
  ]
