-- ===== src/Memory/Checked.antt =====
-- src/patches/memory.rs. A call that may change memory returns its result beside the machine that
-- it leaves. Error texts of Windows are kept as texts.
use fc2_systemdetection.Memory.Bytes.{peek, poke}
use fc2_systemdetection.Memory.Os.{Machine, Os, PageFlags}
use fc2_systemdetection.Memory.Walk.{walk}
use fc2_systemdetection.Prelude.{
  Bool, List, Option, Result, String, bit_and, checked_add, err, if◌then◌else◌, is_empty, leb,
  length, list_eq, ltb, none, not, ok, ok_or, some, ℕ, ◌==◌, ◌>>=◌, ◌>>◌, ◌||◌,
}

pub data WriteState : Type 0 where
  applied already_applied : WriteState

pub data MemoryError : Type 0 where
  empty_replacement : MemoryError
  length_mismatch : ℕ → ℕ → MemoryError
  address_overflow : ℕ → ℕ → MemoryError
  query_failed : ℕ → MemoryError
  not_readable : ℕ → ℕ → MemoryError
  not_committed : ℕ → MemoryError
  crosses_protection_region : ℕ → ℕ → MemoryError
  unexpected_bytes : ℕ → List ℕ → List ℕ → List ℕ → MemoryError
  protect : ℕ → String → MemoryError
  restore_protection : ℕ → String → MemoryError
  flush_instruction_cache : ℕ → String → MemoryError
  write_verification : ℕ → List ℕ → List ℕ → MemoryError

abbrev pub Checked {ℓ} : Type ℓ → Type ℓ
Checked A = Result MemoryError A

unfoldable pub validate_lengths : List ℕ → List ℕ → Checked (Unit {0})
validate_lengths expected replacement =
    if is_empty replacement
    then err empty_replacement
    else if not (length expected == length replacement)
    then err (length_mismatch (length expected) (length replacement))
    else ok tt

-- `applied` here means that a write is required.
unfoldable pub classify_bytes : ℕ → List ℕ → List ℕ → List ℕ → Checked WriteState
classify_bytes address expected replacement actual =
    if list_eq actual replacement
    then ok already_applied
    else if list_eq actual expected
    then ok applied
    else err (unexpected_bytes address expected replacement actual)

unfoldable pub is_readable_protection : PageFlags → ℕ → Bool
is_readable_protection flags protection =
    let base = bit_and protection 0xFF in
    base == flags.page_readonly
    || base == flags.page_readwrite
    || base == flags.page_writecopy
    || base == flags.page_execute_read
    || base == flags.page_execute_readwrite
    || base == flags.page_execute_writecopy

-- `protection & PAGE_GUARD != 0 || !is_readable_protection(protection)`
unfoldable pub is_refused : PageFlags → ℕ → Bool
is_refused flags protection =
    not (bit_and protection flags.page_guard == 0) || not (is_readable_protection flags protection)

module _ {Pages : Type 0} ⦃os : Os Pages⦄ where
  -- `VirtualQuery` at the cursor with the checks that follow it, and the end of the region.
  unfoldable pub query_readable : Pages → ℕ → Checked (ℕ × ℕ)
  query_readable pages cursor = elim (os.virtual_query pages cursor) [
    | none ↦ err (query_failed cursor)
    | some information ↦
        if not (information.state == os.flags.mem_commit)
        then err (not_committed cursor)
        else if is_refused os.flags information.protect
        then err (not_readable cursor information.protect)
        else (ok_or (address_overflow information.base_address information.region_size)
              (checked_add information.base_address information.region_size)
            >>= λ region_end. ok (region_end, information.protect))
  ]

  -- One round of the loop: the region's end, which must lie above the cursor.
  unfoldable pub next_region : Pages → ℕ → Checked ℕ
  next_region pages cursor = query_readable pages cursor >>= λ found.
      if leb found.0 cursor then err (query_failed cursor) else ok found.0

  -- The range holds at most `length` rounds, since each moves the cursor up.
  unfoldable pub validate_readable_range : Pages → ℕ → ℕ → Checked (Unit {0})
  validate_readable_range pages address length =
      if length == 0
      then ok tt
      else (ok_or (address_overflow address length) (checked_add address length) >>= λ end.
          walk (next_region pages) (query_failed address) end length address)

  unfoldable pub read_bytes : Machine Pages → ℕ → ℕ → Checked (List ℕ)
  read_bytes m address length =
      validate_readable_range m.pages address length >> ok (peek m.bytes address length)

  unfoldable pub validate_bytes : Machine Pages → ℕ → List ℕ → List ℕ → Checked WriteState
  validate_bytes m address expected replacement =
      validate_lengths expected replacement
      >> (read_bytes m address (length expected) >>= classify_bytes address expected replacement)

  unfoldable pub writable_protection_for_single_region : Pages → ℕ → ℕ → Checked ℕ
  writable_protection_for_single_region pages address length =
      ok_or (address_overflow address length) (checked_add address length) >>= λ end.
      query_readable pages address >>= λ found.
      if ltb found.0 end
      then err (crosses_protection_region address length)
      else let base = bit_and found.1 0xFF in
        if base == os.flags.page_execute_read
          || base == os.flags.page_execute_readwrite
          || base == os.flags.page_execute_writecopy
        then ok os.flags.page_execute_readwrite
        else ok os.flags.page_readwrite

  -- The end of `write_checked`: both errors are taken before either is reported.
  unfoldable pub verify_write :
      Machine Pages → ℕ → List ℕ → Option String → Option String → Checked WriteState
  verify_write m address replacement (some error) flush_error =
      err (restore_protection address error)
  verify_write m address replacement none (some error) = err (flush_instruction_cache address error)
  verify_write m address replacement none none =
      read_bytes m address (length replacement) >>= λ actual.
      if list_eq actual replacement
      then ok applied
      else err (write_verification address replacement actual)

  -- From the return of the first `VirtualProtect`, which left `unprotected` and returned the old
  -- protection, to the end of `write_checked`.
  unfoldable pub write_unprotected :
      Machine Pages → ℕ → List ℕ → Pages → Option ℕ → Checked WriteState × Machine Pages
  unfolding verify_write
  write_unprotected m address replacement unprotected none =
      (err (protect address (os.last_os_error unprotected)), record m { pages = unprotected })
  write_unprotected m address replacement unprotected (some old_protection) =
      let n = length replacement in
      let written = poke m.bytes address replacement in
      let (restored, restore_result) = os.virtual_protect unprotected address n old_protection in
      let restore_error : Option String = elim restore_result [
        | none ↦ some (os.last_os_error restored)
        | some _ ↦ none
      ] in
      let (flushed, flush_result) = os.flush_instruction_cache restored address n in
      let flush_error : Option String =
        if flush_result then none else some (os.last_os_error flushed) in
      let after : Machine Pages = record { bytes = written; pages = flushed } in
      (verify_write after address replacement restore_error flush_error, after)

  -- From the choice of a writable protection to the end of `write_checked`.
  unfoldable pub write_region :
      Machine Pages → ℕ → List ℕ → Checked ℕ → Checked WriteState × Machine Pages
  unfolding write_unprotected
  write_region m address replacement (err e) = (err e, m)
  write_region m address replacement (ok writable) =
      let (unprotected, result) =
        os.virtual_protect m.pages address (length replacement) writable in
      write_unprotected m address replacement unprotected result

  -- What `write_checked` does once the bytes are classified.
  unfoldable pub write_classified :
      Machine Pages → ℕ → List ℕ → Checked WriteState → Checked WriteState × Machine Pages
  unfolding write_region
  write_classified m address replacement (err e) = (err e, m)
  write_classified m address replacement (ok already_applied) = (ok already_applied, m)
  write_classified m address replacement (ok applied) =
      write_region m address replacement
        (writable_protection_for_single_region m.pages address (length replacement))

  unfoldable pub write_checked :
      Machine Pages → ℕ → List ℕ → List ℕ → Checked WriteState × Machine Pages
  unfolding write_classified
  write_checked m address expected replacement = write_classified m address replacement (
      validate_lengths expected replacement
      >> (read_bytes m address (length expected) >>= classify_bytes address expected replacement))
