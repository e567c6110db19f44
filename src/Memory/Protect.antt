-- ===== src/Memory/Protect.antt =====
-- What src/patches/memory.rs relies on of `VirtualProtect` and `FlushInstructionCache` for its
-- writes to succeed, and their refusals.
use fc2_systemdetection.Memory.Checked.{
  MemoryError, flush_instruction_cache, is_refused, protect, restore_protection,
}
use fc2_systemdetection.Memory.Os.{Os, PageFlags, QueryLaws, Region}
use fc2_systemdetection.Prelude.{false, none, some, ℕ, ◌%◌, ◌+◌, ◌<◌, ◌≡◌, ◌≤◌, ◌⊎◌}

-- The range lies inside one page of 4 KiB, the page size of x86.
abbrev pub WithinPage : ℕ → ℕ → Type 0
WithinPage a n = a % 4096 + n ≤ 4096

-- The range lies in one region, whose pages are committed, readable and unguarded.
pub record OneRegion {Pages : Type 0} (os : Os Pages) (pages : Pages) (a n : ℕ) : Type 0 where
  pub region : Region
  pub found : os.virtual_query pages a ≡ some region
  pub committed : region.state ≡ os.flags.mem_commit
  pub allowed : is_refused os.flags region.protect ≡ false
  pub ends : a + n ≤ region.base_address + region.region_size

-- The protections that memory.rs asks for in order to write.
abbrev pub IsWritable : PageFlags → ℕ → Type 0
IsWritable flags protection =
    (protection ≡ flags.page_execute_readwrite) ⊎ (protection ≡ flags.page_readwrite)

-- Documented of `VirtualProtect`: a call that succeeds changes the protection of the pages that
-- hold the range and no other, and returns the old one; so where a call that puts the old
-- protection back succeeds too, what was readable in one page is so again. A region can be split
-- between pages only. `FlushInstructionCache` changes no protection. That a call succeeds is not
-- assumed.
pub record ProtectLaws {Pages : Type 0} (os : Os Pages) : Type 0 where
  pub queries : QueryLaws os
  pub keeps :
      (p : Pages) (a n protection old last : ℕ)
      → OneRegion os p a n
      → 0 < n
      → (os.virtual_protect p a n protection).1 ≡ some old
      → (os.virtual_protect (os.virtual_protect p a n protection).0 a n old).1 ≡ some last
      → (b k : ℕ) → 0 < k
      → WithinPage b k
      → OneRegion os p b k
      → OneRegion os (os.virtual_protect (os.virtual_protect p a n protection).0 a n old).0 b k
  pub flush_keeps :
      (p : Pages) (a n b k : ℕ)
      → OneRegion os p b k
      → OneRegion os (os.flush_instruction_cache p a n).0 b k

module _ {Pages : Type 0} (os : Os Pages) where
  -- Windows refuses one of the calls that a write of the range makes, in their order: to make the
  -- pages writable, to put their old protection back, and to flush the instruction cache.
  pub data Refuses (p : Pages) (a n : ℕ) : Type 0 where
    refuses_write :
        (protection : ℕ) (may : IsWritable os.flags protection)
        (refused : (os.virtual_protect p a n protection).1 ≡ none)
        → Refuses p a n
    refuses_restore :
        (protection old : ℕ) (may : IsWritable os.flags protection)
        (granted : (os.virtual_protect p a n protection).1 ≡ some old)
        (refused : (os.virtual_protect (os.virtual_protect p a n protection).0 a n old).1 ≡ none)
        → Refuses p a n
    refuses_flush :
        (protection old last : ℕ) (may : IsWritable os.flags protection)
        (granted : (os.virtual_protect p a n protection).1 ≡ some old)
        (restored : (os.virtual_protect (os.virtual_protect p a n protection).0 a n old).1
          ≡ some last)
        (refused : (os.flush_instruction_cache
            (os.virtual_protect (os.virtual_protect p a n protection).0 a n old).0
            a
            n).1
          ≡ false)
        → Refuses p a n

  -- The error that memory.rs makes of the refusal, with the text of the last error of Windows.
  abbrev pub refusal_error : (p : Pages) (a n : ℕ) → Refuses p a n → MemoryError
  refusal_error p a n (refuses_write protection may refused) =
      protect a (os.last_os_error (os.virtual_protect p a n protection).0)
  refusal_error p a n (refuses_restore protection old may granted refused) =
      restore_protection a
        (os.last_os_error (os.virtual_protect (os.virtual_protect p a n protection).0 a n old).0)
  refusal_error p a n (refuses_flush protection old last may granted restored refused) =
      flush_instruction_cache a (
        os.last_os_error
          (os.flush_instruction_cache
            (os.virtual_protect (os.virtual_protect p a n protection).0 a n old).0 a n).0)
