-- ===== src/Tests/PatchRuns.antt =====
-- The plans, the searches and `run` of src/patches/mod.rs on the process of Fixture.
use fc2_systemdetection.Patches.Signatures
use fc2_systemdetection.Scan.Pattern
use fc2_systemdetection.Scan.Range
use fc2_systemdetection.Config.Options.{PatchConfig}
use fc2_systemdetection.Memory.Bytes.{peek, poke}
use fc2_systemdetection.Memory.Checked.{
  WriteState, already_applied, applied, classify_bytes, is_readable_protection, is_refused,
  next_region, query_readable, read_bytes, restore_protection, unexpected_bytes, validate_bytes,
  validate_lengths, validate_readable_range, verify_write, writable_protection_for_single_region,
  write_checked, write_classified, write_region, write_unprotected,
}
use fc2_systemdetection.Memory.Os.{Machine}
use fc2_systemdetection.Memory.Reads.{IsReadable, read_bytes_iff}
use fc2_systemdetection.Memory.Walk.{walk}
use fc2_systemdetection.Patches.Alike.{InSection, ReadAlike}
use fc2_systemdetection.Patches.Apply.{apply-patched, patched}
use fc2_systemdetection.Patches.Build.{
  FileName, detect_build, from_file_size, module_path, module_path_from, unknown,
}
use fc2_systemdetection.Patches.Containment.{run-contained}
use fc2_systemdetection.Patches.Disabled.{run_off}
use fc2_systemdetection.Patches.Error.{PatchError, memory_error, no_errors}
use fc2_systemdetection.Patches.Failure.{apply-LeftAt, apply-failed}
use fc2_systemdetection.Patches.Frame.{apply-frame}
use fc2_systemdetection.Patches.Known.{KnownWrite, checked_known_signature_write-KnownWrite}
use fc2_systemdetection.Patches.Leaves.{IsPartial, LeftAt, LeftBehind}
use fc2_systemdetection.Patches.Path.{IsWhole, module_path-IsWhole}
use fc2_systemdetection.Patches.Plan.{
  PatchPlan, apply, apply_write, apply_writes, new, roll_back, roll_back_write, single, validated,
}
use fc2_systemdetection.Patches.Ready.{AreReady}
use fc2_systemdetection.Patches.Rebase.{find_signature_target-rebased}
use fc2_systemdetection.Patches.Recipes.{plan_jackal_tapes}
use fc2_systemdetection.Patches.Reports.{AreOutcomesOf, run-outcomes}
use fc2_systemdetection.Patches.Resolve.{ResolvesTo, find_signature_target-ResolvesTo}
use fc2_systemdetection.Patches.Rollback.{Trail, nothing_made, one_made, roll_back-Trail}
use fc2_systemdetection.Patches.Run.{
  apply_all, apply_prepared, disabled, prepare_all, prepare_patch, run, run_on_image, settings,
  status_applied,
}
use fc2_systemdetection.Patches.Target.{
  checked_known_signature_write, find_signature_target, judge_match, judge_matches,
  known_context_write, select_target,
}
use fc2_systemdetection.Patches.Total.{IsStopped, apply_complete}
use fc2_systemdetection.Prelude.{
  List, [], ap, arith, err, false, if◌then◌else◌, inl, inr, ltb, map, min, ok, refl, some, true, ℕ,
  ◌+◌, ◌-◌, ◌<◌, ◌∷◌, ◌≡◌, ◌≢◌, ◌≤◌, ◌⊎◌,
}
use fc2_systemdetection.Scan.Error.{code_scope}
use fc2_systemdetection.Scan.Image.{
  address_from_rva, contains_relative_target, from_module, holds_range, holds_target, load_sections,
  read_image, scan, scan_sections, section_matches,
}
use fc2_systemdetection.Scan.Pattern.{
  Pattern, find_offsets, hex_digit, matches, matching_offsets, parse_part, parse_parts, u8_digits,
  u8_from_hex, windows,
}
use fc2_systemdetection.Scan.Range.{read_at, validate_region, walk_regions}
use fc2_systemdetection.Scan.Sections.{
  check_header, check_headers, check_overlap, check_overlaps, is_in_scope, validate_pe_sections,
}
use fc2_systemdetection.Tests.Fixture.{
  calm, calm-ProtectLaws, calm_laws, calm_os, image, memory, modules, other_write, outside_image,
  portex, refusing, refusing_os, region, write,
}
use fc2_systemdetection.Text.{split_whitespace}

abbrev plan : PatchPlan
plan = record { writes = write ∷ [] }

abbrev bad_plan : PatchPlan
bad_plan = record { writes = write ∷ other_write ∷ [] }

-- The process with the replacement in place.
abbrev patched_calm : Machine (Unit {0})
patched_calm = record { bytes = poke memory 0x1046 (0x14 ∷ []); pages = tt }

write_applied : apply calm plan ≡ (ok applied, patched_calm)
unfolding apply apply_writes apply_write write_checked write_classified write_region
    write_unprotected verify_write writable_protection_for_single_region validate_lengths
    classify_bytes read_bytes validate_readable_range walk next_region query_readable is_refused
    is_readable_protection poke
write_applied = refl

write_found : apply patched_calm plan ≡ (ok already_applied, patched_calm)
unfolding apply apply_writes apply_write write_checked write_classified write_region
    write_unprotected verify_write writable_protection_for_single_region validate_lengths
    classify_bytes read_bytes validate_readable_range walk next_region query_readable is_refused
    is_readable_protection poke
write_found = refl

-- The second write finds other bytes than it expects, and the first is rolled back.
abbrev plan_error : PatchError
plan_error = memory_error (unexpected_bytes 0x1040 (0x91 ∷ []) (0x92 ∷ []) (0x90 ∷ []))

abbrev rolled_back : Machine (Unit {0})
rolled_back = record {
  bytes = poke (poke memory 0x1046 (0x14 ∷ [])) 0x1046 (0x0A ∷ []);
  pages = tt;
}

write_failed : apply calm bad_plan ≡ (err plan_error, rolled_back)
unfolding apply apply_writes apply_write roll_back roll_back_write write_checked write_classified
    write_region write_unprotected verify_write writable_protection_for_single_region
    validate_lengths classify_bytes read_bytes validate_readable_range walk next_region
    query_readable is_refused is_readable_protection poke
write_failed = refl

target_found :
    find_signature_target calm image Signatures.jackal_tapes code_scope 5 (0x0A ∷ []) (0x14 ∷ [])
    ≡ ok 0x1046
unfolding find_signature_target judge_matches judge_match select_target Pattern.parse parse_parts
    parse_part u8_from_hex u8_digits hex_digit split_whitespace scan scan_sections section_matches
    Pattern.find_offsets windows matching_offsets matches is_in_scope contains_relative_target
    holds_target validate_bytes validate_lengths classify_bytes read_bytes validate_readable_range
    walk next_region query_readable is_refused is_readable_protection
target_found = refl

known_found :
    checked_known_signature_write calm image Signatures.jackal_tapes code_scope 0x46 5
      (0x0A ∷ [])
      (0x14 ∷ [])
    ≡ ok write
unfolding checked_known_signature_write known_context_write address_from_rva holds_range validated
    Pattern.parse parse_parts parse_part u8_from_hex u8_digits hex_digit split_whitespace scan
    scan_sections section_matches Pattern.find_offsets windows matching_offsets matches is_in_scope
    contains_relative_target holds_target validate_bytes validate_lengths classify_bytes read_bytes
    validate_readable_range walk next_region query_readable is_refused is_readable_protection
known_found = refl

-- Only the patch `jackal_tapes` is on.
abbrev config : PatchConfig
config = record {
  jackal_tapes = true;
  devmode_always_on = false;
  predecessor_tapes = false;
  machetes = false;
  no_blinking_items = false;
}

run_patches :
    ((run modules portex calm config).1.bytes 0x1046 ≡ 0x14)
    × ((run modules portex calm config).0.build ≡ some (unknown (some 5)))
    × (map (λ o. o.status) (run modules portex calm config).0.outcomes
        ≡ status_applied ∷ disabled ∷ disabled ∷ disabled ∷ disabled ∷ [])
unfolding run run_on_image prepare_all prepare_patch apply_all apply_prepared plan_jackal_tapes
    single new validated find_signature_target judge_matches judge_match select_target apply
    apply_writes apply_write detect_build module_path module_path_from from_file_size from_module
    read_image load_sections read_at validate_pe_sections check_headers check_header check_overlaps
    check_overlap validate_region Range.validate_readable_range Range.walk_regions Pattern.parse
    parse_parts parse_part u8_from_hex u8_digits hex_digit split_whitespace scan scan_sections
    section_matches Pattern.find_offsets windows matching_offsets matches is_in_scope
    contains_relative_target holds_target validate_bytes write_checked write_classified write_region
    write_unprotected verify_write writable_protection_for_single_region validate_lengths
    classify_bytes read_bytes validate_readable_range walk next_region query_readable is_refused
    is_readable_protection poke
run_patches = (refl, refl, refl)

abbrev torn : Machine ℕ
torn = record { bytes = poke memory 0x1046 (0x14 ∷ []); pages = 2 }

restore_refused :
    apply refusing plan ≡ (err (memory_error (restore_protection 0x1046 "access denied")), torn)
unfolding apply apply_writes apply_write validate_bytes write_checked write_classified write_region
    write_unprotected verify_write writable_protection_for_single_region validate_lengths
    classify_bytes read_bytes validate_readable_range walk next_region query_readable is_refused
    is_readable_protection poke
restore_refused = refl

-- The process with the replacement in place and, elsewhere, another byte.
abbrev overlaid : Machine (Unit {0})
overlaid = record { bytes = poke patched_calm.bytes 0x9000 (0x55 ∷ []); pages = tt }

bytes_differ : ◌≢◌ {A = List ℕ} (0x0A ∷ []) (0x14 ∷ [])
bytes_differ same = cc

trail : Trail memory (write ∷ []) patched_calm.bytes
unfolding poke
trail =
    one_made nothing_made
      (record { held = refl; differs = bytes_differ; lengths = refl; now = refl })

rollback_clean : (roll_back overlaid (write ∷ [])).0 ≡ no_errors
unfolding roll_back roll_back_write write_checked write_classified write_region write_unprotected
    verify_write writable_protection_for_single_region validate_lengths classify_bytes read_bytes
    validate_readable_range walk next_region query_readable is_refused is_readable_protection poke
rollback_clean = refl

-- A path of 300 units, and a zero behind it.
abbrev long_name : ℕ → FileName
long_name capacity = record { returned = min capacity 300; buffer = 0x41 ∷ []; error = "" }

apply-patched_example : patched_calm.bytes ≡ patched memory (write ∷ [])
apply-patched_example = apply-patched calm patched_calm plan applied write_applied

apply-failed_example :
    IsPartial plan_error
    ⊎ ((rolled_back.bytes ≡ memory) ⊎ LeftBehind memory bad_plan.writes rolled_back.bytes)
apply-failed_example =
    apply-failed calm rolled_back bad_plan plan_error
      (((λ c i j. omega (arith, i, j)), tt), (tt, tt)) write_failed

apply-LeftAt_example : LeftAt 0x1046 memory plan.writes torn.bytes
apply-LeftAt_example =
    apply-LeftAt refusing torn plan (restore_protection 0x1046 "access denied") 0x1046 refl (tt, tt)
      restore_refused

apply-frame_example : (apply calm plan).1.bytes 0x1047 ≡ 0x3B
apply-frame_example = apply-frame 0x1047 calm plan ((λ i. omega (arith, i.0, i.1)), tt)

find_signature_target-ResolvesTo_example :
    ResolvesTo calm image code_scope 5 (0x0A ∷ []) (0x14 ∷ []) Signatures.jackal_tapes 0x1046
find_signature_target-ResolvesTo_example =
    find_signature_target-ResolvesTo calm image code_scope 5 (0x0A ∷ []) (0x14 ∷ [])
      Signatures.jackal_tapes 0x1046 target_found

checked_known_signature_write-KnownWrite_example :
    KnownWrite calm image Signatures.jackal_tapes code_scope 0x46 5 (0x0A ∷ []) (0x14 ∷ []) write
checked_known_signature_write-KnownWrite_example =
    checked_known_signature_write-KnownWrite calm image Signatures.jackal_tapes code_scope 0x46 5
      (0x0A ∷ []) (0x14 ∷ []) write known_found

roll_back-Trail_example : (roll_back overlaid (write ∷ [])).1.bytes ≡ poke memory 0x9000 (0x55 ∷ [])
roll_back-Trail_example =
    roll_back-Trail 0x9000 (0x55 ∷ []) overlaid trail ((λ c i j. omega (arith, i, j)), tt) refl
      rollback_clean

run-contained_example : (run modules portex calm config).1.bytes 0 ≡ 0
run-contained_example = run-contained modules portex calm config 0 outside_image

run-outcomes_example : AreOutcomesOf (settings config) (run modules portex calm config).0.outcomes
run-outcomes_example = run-outcomes modules portex calm config

abbrev config_off : PatchConfig
config_off = record config { jackal_tapes = false }

run_off_example : (run modules portex calm config_off).1 ≡ calm
run_off_example = run_off modules portex calm config_off (refl, (refl, (refl, (refl, (refl, tt)))))

long_path : module_path (λ capacity. long_name capacity) ≡ ok (0x41 ∷ [])
unfolding module_path module_path_from
long_path = refl

module_path-IsWhole_example : IsWhole (λ capacity. long_name capacity) (0x41 ∷ [])
module_path-IsWhole_example =
    module_path-IsWhole (λ capacity. long_name capacity) (0x41 ∷ []) long_path

plan_ready : AreReady calm_os calm plan.writes
unfolding is_refused is_readable_protection
plan_ready = (
  record {
    lengths = refl;
    some_bytes = omega arith;
    holds = inl refl;
    region = record {
      region = region;
      found = refl;
      committed = refl;
      allowed = refl;
      ends = omega arith;
    };
    page = omega arith;
  },
  tt,
)

apply_complete_example :
    ((s : WriteState) × (m' : Machine (Unit {0})) × (apply calm plan ≡ (ok s, m'))
      × (m'.bytes ≡ patched memory plan.writes)
      × (apply m' plan ≡ (ok already_applied, m')))
    ⊎ IsStopped tt plan.writes (apply calm plan)
apply_complete_example = apply_complete calm-ProtectLaws calm plan (λ h. cc) plan_ready (tt, tt)

-- The same module at 0x5000.
abbrev moved : Machine (Unit {0})
moved = record { bytes = λ a. if ltb a 0x4000 then 0 else memory (a - 0x4000); pages = tt }

calm-IsReadable : (b : ℕ) → b < 0x10000 → IsReadable tt b
unfolding is_refused is_readable_protection
calm-IsReadable b below = (region, ground arith, refl, refl)

section_bounds : (rva n : ℕ) → InSection image code_scope rva n → rva + n ≤ 0x100
section_bounds rva n s = elim s.in_scope.listed [
  | inl text ↦
      let e : s.section.metadata.rva + s.section.metadata.size ≡ 0x50 =
        ap (λ l. l.metadata.rva + l.metadata.size) text in
      omega (arith, s.rva_to, e)
  | inr (inl rdata) ↦
      let e : s.section.metadata.rva + s.section.metadata.size ≡ 0x90 =
        ap (λ l. l.metadata.rva + l.metadata.size) rdata in
      omega (arith, s.rva_to, e)
  | inr (inr nothing) ↦ absurd nothing
]

read_alike :
    (rva : ℕ)
    → InSection image code_scope rva 1
    → ReadAlike calm moved (0x0A ∷ []) (0x14 ∷ []) (0x1000 + rva) (0x5000 + rva)
read_alike rva s =
    let below = section_bounds rva 1 s in
    let e : 0x5000 + rva - 0x4000 ≡ 0x1000 + rva = omega arith in
    let above : ltb (0x5000 + rva) 0x4000 ≡ false = ground arith in
    record {
      bytes = peek memory (0x1000 + rva) 1;
      first =
          (read_bytes_iff calm_laws calm (0x1000 + rva) 1 (peek memory (0x1000 + rva) 1)
              (omega (arith, below))).1
            (refl, λ b inside. calm-IsReadable b (omega (arith, inside.1, below)));
      second =
          (read_bytes_iff calm_laws moved (0x5000 + rva) 1 (peek memory (0x1000 + rva) 1)
              (omega (arith, below))).1
            (rw (above, e) refl, λ b inside. calm-IsReadable b (omega (arith, inside.1, below)));
    }

find_signature_target-rebased_example :
    find_signature_target moved
      (record image { base = 0x5000 })
      Signatures.jackal_tapes
      code_scope
      5
      (0x0A ∷ [])
      (0x14 ∷ [])
    ≡ ok 0x5046
find_signature_target-rebased_example =
    find_signature_target-rebased image code_scope 0x1000 0x5000 calm moved 5 (0x0A ∷ [])
      (0x14 ∷ []) Signatures.jackal_tapes 0x1046 ((refl, omega arith), ((refl, omega arith), tt))
      ((refl, omega arith), ((refl, omega arith), tt)) read_alike target_found
