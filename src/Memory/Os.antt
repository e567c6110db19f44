-- ===== src/Memory/Os.antt =====
-- What memory.rs, sigscan.rs and mod.rs use of Windows to look at and change memory: the functions
-- and constants of the crate `windows-sys`, whose code is not in the repository. `Pages` is what
-- Windows keeps of an address space; the functions read it and change it.
use fc2_systemdetection.Prelude.{ℕ, usize_mod, ◌+◌, ◌<◌, ◌≡◌, Bool, Option, some, String}
use fc2_systemdetection.Memory.Bytes.{Bytes, InRange}

-- The fields of MEMORY_BASIC_INFORMATION that the source reads.
pub record Region : Type 0 where
  pub base_address : ℕ
  pub region_size : ℕ
  pub state : ℕ
  pub protect : ℕ

-- The constants of `windows-sys` that the source names.
pub record PageFlags : Type 0 where
  pub mem_commit : ℕ
  pub page_guard : ℕ
  pub page_readonly : ℕ
  pub page_readwrite : ℕ
  pub page_writecopy : ℕ
  pub page_execute_read : ℕ
  pub page_execute_readwrite : ℕ
  pub page_execute_writecopy : ℕ

pub record Os (Pages : Type 0) : Type 0 where
  pub flags : PageFlags
  -- `VirtualQuery` at an address; `none` where it returns 0.
  pub virtual_query : Pages → ℕ → Option Region
  -- `VirtualProtect` of an address, a length and a protection, with the old protection; `none`
  -- where it returns 0.
  pub virtual_protect : Pages → ℕ → ℕ → ℕ → Pages × Option ℕ
  -- `FlushInstructionCache` of the current process, and whether it returned a nonzero value.
  pub flush_instruction_cache : Pages → ℕ → ℕ → Pages × Bool
  -- `std::io::Error::last_os_error().to_string()`
  pub last_os_error : Pages → String

-- The process as the checked reads and writes see it.
pub record Machine (Pages : Type 0) : Type 0 where
  pub bytes : Bytes
  pub pages : Pages

-- Documented of `VirtualQuery`: the region holds the address asked for, and all of its pages have
-- the state and the protection that it reports. It answers for user addresses alone, so a region
-- ends below 4 GiB.
pub record QueryLaws {Pages : Type 0} (os : Os Pages) : Type 0 where
  pub covers :
      (p : Pages) (a : ℕ) (r : Region)
      → os.virtual_query p a ≡ some r
      → InRange r.base_address r.region_size a
  pub fits :
      (p : Pages) (a : ℕ) (r : Region)
      → os.virtual_query p a ≡ some r
      → r.base_address + r.region_size < usize_mod
  pub uniform :
      (p : Pages) (a b : ℕ) (r : Region)
      → os.virtual_query p a ≡ some r
      → InRange r.base_address r.region_size b
      → (s : Region) × (os.virtual_query p b ≡ some s)
        × (s.state ≡ r.state)
        × (s.protect ≡ r.protect)
