-- ===== src/Memory/Display.antt =====
-- `Display` of `MemoryError`, and `format_bytes`, of src/patches/memory.rs.
use fc2_systemdetection.Memory.Checked.{
  MemoryError, address_overflow, crosses_protection_region, empty_replacement,
  flush_instruction_cache, length_mismatch, not_committed, not_readable, protect, query_failed,
  restore_protection, unexpected_bytes, write_verification,
}
use fc2_systemdetection.Prelude.{List, [], length, map, ℕ, ◌++◌, ◌∷◌}
use fc2_systemdetection.Text.{Text, codes}
use fc2_systemdetection.Text.Format.{concat, decimal, hex, hex_address, hex_padded, join}

unfoldable pub format_bytes : List ℕ → Text
unfolding join hex_padded
format_bytes bytes = join (codes " ") (map (hex_padded 2) bytes)

unfoldable pub display_memory : MemoryError → Text
unfolding format_bytes decimal hex hex_address
display_memory empty_replacement = codes "replacement byte sequence is empty"
display_memory (length_mismatch expected replacement) = concat (
    codes "expected-byte length "
    ∷ decimal expected
    ∷ codes " differs from replacement length "
    ∷ decimal replacement
    ∷ [])
display_memory (address_overflow address length) = concat (
    codes "memory range "
    ∷ hex_address address
    ∷ codes " + "
    ∷ decimal length
    ∷ codes " overflows"
    ∷ [])
display_memory (query_failed address) = codes "VirtualQuery failed at " ++ hex_address address
display_memory (not_readable address protection) = concat (
    codes "memory at "
    ∷ hex_address address
    ∷ codes " is not readable (protection 0x"
    ∷ hex protection
    ∷ codes ")"
    ∷ [])
display_memory (not_committed address) =
    concat (codes "memory at " ∷ hex_address address ∷ codes " is not committed" ∷ [])
display_memory (crosses_protection_region address length) = concat (
    codes "write range "
    ∷ hex_address address
    ∷ codes " + "
    ∷ decimal length
    ∷ codes " crosses a virtual-memory protection region"
    ∷ [])
display_memory (unexpected_bytes address expected replacement actual) = concat (
    codes "unexpected bytes at "
    ∷ hex_address address
    ∷ codes ": expected "
    ∷ format_bytes expected
    ∷ codes " or already-patched "
    ∷ format_bytes replacement
    ∷ codes ", found "
    ∷ format_bytes actual
    ∷ [])
display_memory (protect address error) =
    concat (codes "VirtualProtect failed at " ∷ hex_address address ∷ codes ": " ∷ codes error ∷ [])
display_memory (restore_protection address error) = concat (
    codes "restoring memory protection failed at "
    ∷ hex_address address
    ∷ codes ": "
    ∷ codes error
    ∷ [])
display_memory (flush_instruction_cache address error) =
    concat (
      codes "FlushInstructionCache failed at "
      ∷ hex_address address
      ∷ codes ": "
      ∷ codes error
      ∷ [])
display_memory (write_verification address expected actual) = concat (
    codes "write verification failed at "
    ∷ hex_address address
    ∷ codes ": expected "
    ∷ format_bytes expected
    ∷ codes ", found "
    ∷ format_bytes actual
    ∷ [])
