-- ===== src/Scan/Range.antt =====
-- The `validate_readable_range` of src/patches/sigscan.rs, and its `copy_memory` and
-- `ValidatedModuleReader`.
use fc2_systemdetection.Memory.Bytes.{peek}
use fc2_systemdetection.Memory.Os.{Machine, Os, PageFlags, Region}
use fc2_systemdetection.Prelude.{
  Bool, List, Result, String, [], bit_and, checked_add, checked_sub, err, false, if◌then◌else◌, leb,
  length, ltb, map_err, min, none, not, ok, ok_or, some, suc, true, usize_mod, zero, ℕ, ◌==◌, ◌>>=◌,
  ◌>>◌, ◌||◌,
}
use fc2_systemdetection.Scan.Error.{
  RangeFault, address_range_overflow, memory_not_committed, protection_not_readable,
  query_did_not_advance, query_failed_at, region_range_overflow,
}
use fc2_systemdetection.Scan.Sections.{PeHeaders}

-- The messages of `ValidatedModuleReader::read_at`.
pub data ReadFault : Type 0 where
  loaded_module_address_overflow : ReadFault
  unsafe_read : ℕ → RangeFault → ReadFault

-- What sigscan.rs uses of the crate Portex: its error type, the text of an error, an error made of
-- a message, and the parser of PE headers, of a file and of a reader. `read_from` is given `read_at`
-- and `size` of a reader; `read_at` takes an offset and the length of the buffer, and returns the
-- bytes that it has copied.
pub record Portex (PortexError : Type 0) : Type 0 where
  pub generic : ReadFault → PortexError
  pub to_text : PortexError → String
  pub from_slice : List ℕ → Result PortexError PeHeaders
  pub read_from : (ℕ → ℕ → Result PortexError (List ℕ)) → ℕ → Result PortexError PeHeaders

unfoldable pub is_readable_protection : PageFlags → ℕ → Bool
is_readable_protection flags protection =
    let base = bit_and protection 0xFF in
    base == flags.page_readonly
    || base == flags.page_readwrite
    || base == flags.page_writecopy
    || base == flags.page_execute_read
    || base == flags.page_execute_readwrite
    || base == flags.page_execute_writecopy

-- `validate_region`
unfoldable pub validate_region : PageFlags → Region → Result RangeFault (Unit {0})
unfolding is_readable_protection
validate_region flags information =
    if not (information.state == flags.mem_commit)
    then err memory_not_committed
    else if not (bit_and information.protect flags.page_guard == 0)
        || not (is_readable_protection flags information.protect)
    then err (protection_not_readable information.protect)
    else ok tt

module _ {Pages : Type 0} ⦃os : Os Pages⦄ where
  -- One round of the loop.
  unfoldable pub next_region : Pages → ℕ → Result RangeFault ℕ
  unfolding validate_region
  next_region pages cursor = elim (os.virtual_query pages cursor) [
    | none ↦ err (query_failed_at cursor)
    | some information ↦
        validate_region os.flags information
        >> (ok_or region_range_overflow
              (checked_add information.base_address information.region_size)
            >>= λ region_end.
                if leb region_end cursor then err query_did_not_advance else ok region_end)
  ]

  -- The loop `while cursor < end`; the fuel bounds its rounds.
  unfoldable pub walk_regions : Pages → ℕ → ℕ → ℕ → Result RangeFault (Unit {0})
  unfolding next_region
  walk_regions pages end zero cursor = if ltb cursor end then err query_did_not_advance else ok tt
  walk_regions pages end (suc fuel) cursor = elim (ltb cursor end) [
    | false ↦ ok tt
    | true ↦
        next_region pages cursor >>= λ region_end. walk_regions pages end fuel (min region_end end)
  ]

  -- The range holds at most `length` rounds, since each moves the cursor up.
  unfoldable pub validate_readable_range : Pages → ℕ → ℕ → Result RangeFault (Unit {0})
  validate_readable_range pages address length =
      if length == 0
      then ok tt
      else (ok_or address_range_overflow (checked_add address length) >>= λ end.
          walk_regions pages end length address)

  -- `ValidatedModuleReader::read_at` for a module at `base` of the given size. The buffer is cut
  -- to what the image has behind the offset, which is a `u64`.
  unfoldable pub read_at :
      {PortexError : Type 0}
      → Portex PortexError
      → Machine Pages
      → ℕ
      → ℕ
      → ℕ
      → ℕ
      → Result PortexError (List ℕ)
  read_at portex m base size offset wanted =
      if leb usize_mod offset then ok [] else elim (checked_sub size offset) [
        | none ↦ ok []
        | some available ↦
            let n = min wanted available in
            if n == 0
            then ok []
            else (ok_or (portex.generic loaded_module_address_overflow) (checked_add base offset)
                >>= λ address.
                    map_err (λ reason. portex.generic (unsafe_read offset reason))
                      (validate_readable_range m.pages address n)
                    >> ok (peek m.bytes address n))
      ]
