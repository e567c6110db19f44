-- ===== src/Gear/Cpu.antt =====
-- `GearCPU` of src/gear/cpu.rs: the processors and their frequency.
use fc2_systemdetection.Prelude.{
  Bool, List, Option, [], false, if◌then◌else◌, ltb, max, min, none, some, suc, true, usize_mod,
  zero, ℕ, ◌%◌, ◌*◌, ◌+◌, ◌/◌, ◌==◌, ◌||◌, ◌∷◌,
}

-- What cpu.rs asks of Windows. `Threads` is what Windows keeps of the process's threads.
pub record CpuOs (Threads : Type 0) : Type 0 where
  -- The two masks of `GetProcessAffinityMask`: of the process, and of the system.
  pub process_affinity : Threads → ℕ
  pub system_affinity : Threads → ℕ
  -- `SetThreadAffinityMask` of the current thread, and whether it returned a nonzero value.
  pub set_thread_affinity : Threads → ℕ → Threads × Bool
  -- `dwNumberOfProcessors` of `GetSystemInfo`.
  pub number_of_processors : Threads → ℕ
  -- The value `~MHz` of the registry, 0 where it cannot be read; `none` if its key does not open.
  pub registry_mhz : Option ℕ

-- The text object, without the table of its methods.
pub record GearBasicString : Type 0 where
  pub string_length : ℕ
  pub string_data : List ℕ

-- `n` zero bytes
abbrev pub zero_bytes : ℕ → List ℕ
zero_bytes zero = []
zero_bytes (suc n) = 0 ∷ zero_bytes n

-- `GearBasicString::default`
unfoldable pub default_string : GearBasicString
default_string = record { string_length = 0; string_data = zero_bytes 64 }

-- The fields of `GearCPU` but for the table of its methods.
pub record GearCpu : Type 0 where
  pub base_field : ℕ
  pub cpu_freq_low : ℕ
  pub cpu_freq_high : ℕ
  pub num_logical : ℕ
  pub num_physical : ℕ
  pub num_packages : ℕ
  pub vendor_id : ℕ
  pub simd_level : ℕ
  pub reserved : ℕ
  pub cpu_info_string : GearBasicString

-- `wrapping_shl(1)` of a `usize`
abbrev pub shift_left : ℕ → ℕ
shift_left mask = (mask * 2) % usize_mod

-- `saturating_mul` of a `u32`
abbrev pub saturating_mul : ℕ → ℕ → ℕ
saturating_mul a b = min (a * b) 4_294_967_295

-- `n.div_ceil(2)`
abbrev pub half_up : ℕ → ℕ
half_up n = (n + 1) / 2

-- `get_cpu_mhz`, on what the registry has.
unfoldable pub get_cpu_mhz : Option ℕ → ℕ
get_cpu_mhz none = 3000
get_cpu_mhz (some mhz) = if ltb 0 mhz then mhz else 3000

module _ {Threads : Type 0} ⦃os : CpuOs Threads⦄ where
  -- The loop over the masks of the single processors. The fuel bounds the rounds.
  unfoldable pub count_logical : ℕ → ℕ → ℕ → ℕ → Threads → ℕ × Threads
  count_logical zero system_affinity mask count threads = (count, threads)
  count_logical (suc fuel) system_affinity mask count threads =
      elim (mask == 0 || ltb system_affinity mask) [
        | true ↦ (count, threads)
        | false ↦
            let (moved, set) = os.set_thread_affinity threads mask in
            count_logical fuel system_affinity (shift_left mask) (if set then count + 1 else count)
              moved
      ]

  -- `get_cpu_topology_fixed`; the mask has 32 bits, and each round moves its one bit up.
  unfoldable pub get_cpu_topology_fixed : Threads → (ℕ × ℕ × ℕ) × Threads
  unfolding count_logical
  get_cpu_topology_fixed threads =
      let (counted, after_loop) = count_logical 32 (os.system_affinity threads) 1 0 threads in
      let restored = (os.set_thread_affinity after_loop (os.process_affinity threads)).0 in
      let logical_count = if counted == 0 then os.number_of_processors restored else counted in
      ((max logical_count 1, max (half_up logical_count) 1, 1), restored)

  -- `GearCPU::new`
  unfoldable pub new_cpu : Threads → GearCpu × Threads
  unfolding get_cpu_topology_fixed get_cpu_mhz default_string
  new_cpu threads =
      let (counts, after) = get_cpu_topology_fixed threads in
      (
        record {
          base_field = 0;
          cpu_freq_low = saturating_mul (get_cpu_mhz os.registry_mhz) 1_000_000;
          cpu_freq_high = 0;
          num_logical = counts.0;
          num_physical = counts.1;
          num_packages = counts.2;
          vendor_id = 4;
          simd_level = 8;
          reserved = 0;
          cpu_info_string = default_string;
        },
        after,
      )
