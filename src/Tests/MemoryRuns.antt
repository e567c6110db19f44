-- ===== src/Tests/MemoryRuns.antt =====
-- The checked reads and writes of src/patches/memory.rs on the process of Fixture.
use fc2_systemdetection.Scan.Range
use fc2_systemdetection.Memory.Again.{write_checked-again}
use fc2_systemdetection.Memory.Bytes.{InRange, peek, poke}
use fc2_systemdetection.Memory.Checked.{
  already_applied, applied, classify_bytes, empty_replacement, is_readable_protection, is_refused,
  next_region, query_failed, query_readable, read_bytes, restore_protection, unexpected_bytes,
  validate_lengths, validate_readable_range, verify_write, writable_protection_for_single_region,
  write_checked, write_classified, write_region, write_unprotected,
}
use fc2_systemdetection.Memory.Reads.{IsReadable, read_bytes_iff, validate_readable_range_fuel}
use fc2_systemdetection.Memory.Total.{IsReady, IsWritten, write_checked_succeeds}
use fc2_systemdetection.Memory.Walk.{walk}
use fc2_systemdetection.Memory.Writes.{WriteSpec, write_checked_lem}
use fc2_systemdetection.Prelude.{[], arith, err, inl, ok, refl, ℕ, ◌+◌, ◌↔◌, ◌∷◌, ◌≡◌}
use fc2_systemdetection.Scan.Agree.{validate_readable_range_iff}
use fc2_systemdetection.Tests.Fixture.{
  calm, calm-ProtectLaws, calm_laws, calm_os, memory, refusing, refusing_os, region,
}

-- The second signature byte is read; a range past the region fails.
reads :
    (read_bytes calm 0x1046 2 ≡ ok (0x0A ∷ 0x3B ∷ []))
    × (read_bytes calm 0xFFFF 2 ≡ err (query_failed 0x10000))
    × (read_bytes calm 0 0 ≡ ok [])
unfolding read_bytes validate_readable_range walk next_region query_readable is_refused
    is_readable_protection
reads = (refl, refl, refl)

-- A write is made, found made, and refused where other bytes stand.
writes :
    ((write_checked calm 0x1046 (0x0A ∷ []) (0x14 ∷ [])).0 ≡ ok applied)
    × ((write_checked calm 0x1046 (0x0B ∷ []) (0x0A ∷ [])).0 ≡ ok already_applied)
    × ((write_checked calm 0x1046 (0x0A ∷ []) (0x14 ∷ [])).1.bytes 0x1046 ≡ 0x14)
    × ((write_checked calm 0x1046 (0x0B ∷ []) (0x14 ∷ [])).0
        ≡ err (unexpected_bytes 0x1046 (0x0B ∷ []) (0x14 ∷ []) (0x0A ∷ [])))
    × ((write_checked calm 0x1046 (0x0B ∷ []) []).0 ≡ err empty_replacement)
    × ((write_checked refusing 0x1046 (0x0A ∷ []) (0x14 ∷ [])).0
        ≡ err (restore_protection 0x1046 "access denied"))
unfolding write_checked write_classified write_region write_unprotected verify_write
    writable_protection_for_single_region validate_lengths classify_bytes read_bytes
    validate_readable_range walk next_region query_readable is_refused is_readable_protection poke
writes = (refl, refl, refl, refl, refl, refl)

applied_once :
    write_checked calm 0x1046 (0x0A ∷ []) (0x14 ∷ [])
    ≡ (ok applied, record { bytes = poke memory 0x1046 (0x14 ∷ []); pages = tt })
unfolding write_checked write_classified write_region write_unprotected verify_write
    writable_protection_for_single_region validate_lengths classify_bytes read_bytes
    validate_readable_range walk next_region query_readable is_refused is_readable_protection poke
applied_once = refl

validate_readable_range_fuel_example :
    walk (next_region tt) (query_failed 1) (0x1040 + 4) 9 0x1040
    ≡ walk (next_region tt) (query_failed 0x1040) (0x1040 + 4) 4 0x1040
validate_readable_range_fuel_example =
    validate_readable_range_fuel tt 0x1040 4 9 (query_failed 1) (omega arith)

read_bytes_iff_example :
    (read_bytes calm 0x1046 2 ≡ ok (0x0A ∷ 0x3B ∷ []))
    ↔ ((0x0A ∷ 0x3B ∷ [] ≡ peek memory 0x1046 2) × ((b : ℕ) → InRange 0x1046 2 b → IsReadable tt b))
read_bytes_iff_example = read_bytes_iff calm_laws calm 0x1046 2 (0x0A ∷ 0x3B ∷ []) (omega arith)

write_checked_lem_example :
    WriteSpec calm 0x1046
      (0x0A ∷ [])
      (0x14 ∷ [])
      (write_checked calm 0x1046 (0x0A ∷ []) (0x14 ∷ []))
write_checked_lem_example = write_checked_lem calm 0x1046 (0x0A ∷ []) (0x14 ∷ [])

write_checked-again_example :
    write_checked
      (record { bytes = poke memory 0x1046 (0x14 ∷ []); pages = tt })
      0x1046
      (0x0A ∷ [])
      (0x14 ∷ [])
    ≡ (ok already_applied, record { bytes = poke memory 0x1046 (0x14 ∷ []); pages = tt })
write_checked-again_example = write_checked-again calm 0x1046 (0x0A ∷ []) (0x14 ∷ []) applied_once

validate_readable_range_iff_example :
    (Range.validate_readable_range tt 0x1040 16 ≡ ok tt)
    ↔ (validate_readable_range tt 0x1040 16 ≡ ok tt)
validate_readable_range_iff_example = validate_readable_range_iff tt 0x1040 16

first-IsReady : IsReady calm_os calm 0x1046 (0x0A ∷ []) (0x14 ∷ [])
unfolding is_refused is_readable_protection
first-IsReady = record {
  lengths = refl;
  some_bytes = omega arith;
  holds = inl refl;
  region = record {
    region = region;
    found = refl;
    committed = refl;
    allowed = refl;
    ends = omega arith;
  };
  page = omega arith;
}

write_checked_succeeds_example :
    IsWritten calm_os calm 0x1046 1 (write_checked calm 0x1046 (0x0A ∷ []) (0x14 ∷ []))
write_checked_succeeds_example =
    write_checked_succeeds calm-ProtectLaws calm 0x1046 (0x0A ∷ []) (0x14 ∷ []) first-IsReady
      (λ same. absurd (ground (arith, same)))
