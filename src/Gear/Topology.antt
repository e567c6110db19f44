-- ===== src/Gear/Topology.antt =====
-- The processor counts and the frequency of src/gear/cpu.rs.
use fc2_systemdetection.Gear.Cpu.{
  CpuOs, count_logical, get_cpu_mhz, get_cpu_topology_fixed, new_cpu, shift_left,
}
use fc2_systemdetection.Prelude.{
  Bool-cases, Option, arith, inl, inr, ltb, none, refl, some, suc, zero, ℕ, ◌*◌, ◌+◌, ◌<◌, ◌==◌,
  ◌^◌, ◌||◌, ◌≡◌, ◌≤◌,
}

-- After so many rounds the mask has lost its last bit.
abbrev IsSpent : ℕ → ℕ → Type 0
IsSpent zero mask = mask ≡ 0
IsSpent (suc rounds) mask = IsSpent rounds (shift_left mask)

mhz_positive : (registry : Option ℕ) → 0 < get_cpu_mhz registry
unfolding get_cpu_mhz
mhz_positive none = omega arith
mhz_positive (some mhz) = ground arith

module _ {Threads : Type 0} ⦃os : CpuOs Threads⦄ where
  count_logical_more :
      (rounds more system_affinity mask count : ℕ) (threads : Threads)
      → IsSpent rounds mask
      → count_logical (rounds + more) system_affinity mask count threads
        ≡ count_logical rounds system_affinity mask count threads
  unfolding count_logical
  count_logical_more zero zero system_affinity mask count threads h = refl
  count_logical_more zero (suc more) system_affinity mask count threads h =
      let e : 0 + suc more ≡ suc more = omega arith in rw (e, h, count_logical) refl
  count_logical_more (suc rounds) more system_affinity mask count threads h =
      let e : suc rounds + more ≡ suc (rounds + more) = omega arith in
      rw e (elim (Bool-cases (mask == 0 || ltb system_affinity mask)) [
        | inl stop ↦ rw (stop, count_logical) refl
        | inr go ↦
            rw (go, count_logical)
              (count_logical_more rounds more system_affinity (shift_left mask) _ _ h)
      ])

  -- The loop of `get_cpu_topology_fixed` ends within its 32 rounds, whatever the system's affinity
  -- mask is and whatever Windows answers: more fuel changes neither the count nor the threads.
  pub count_logical_fuel :
      (more system_affinity : ℕ) (threads : Threads)
      → count_logical (32 + more) system_affinity 1 0 threads
        ≡ count_logical 32 system_affinity 1 0 threads
  count_logical_fuel more system_affinity threads =
      count_logical_more 32 more system_affinity 1 0 threads refl

  -- The new object has one package, at least one physical processor, at most as many physical
  -- processors as logical ones, at most twice as many logical ones, and a frequency that is not
  -- zero and fits a `u32`.
  pub new_cpu_counts :
      (threads : Threads)
      → let cpu = (new_cpu threads).0 in
        (cpu.num_packages ≡ 1)
        × (1 ≤ cpu.num_physical)
        × (cpu.num_physical ≤ cpu.num_logical)
        × (cpu.num_logical ≤ 2 * cpu.num_physical)
        × (0 < cpu.cpu_freq_low)
        × (cpu.cpu_freq_low < 2 ^ 32)
  unfolding new_cpu get_cpu_topology_fixed get_cpu_mhz
  new_cpu_counts threads = (
    refl,
    omega arith,
    omega arith,
    omega arith,
    omega (arith, mhz_positive os.registry_mhz),
    omega arith,
  )
