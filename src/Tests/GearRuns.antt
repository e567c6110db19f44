-- ===== src/Tests/GearRuns.antt =====
-- The processor counts of src/gear/cpu.rs on a system of four processors.
use fc2_systemdetection.Gear.Cpu.{
  CpuOs, count_logical, default_string, get_cpu_mhz, get_cpu_topology_fixed, new_cpu, zero_bytes,
}
use fc2_systemdetection.Gear.Graphics.{get_desktop_resolution}
use fc2_systemdetection.Gear.Hardware.{
  call_audio, call_cpu, call_graphics, new_hardware, run_hardware_calls,
}
use fc2_systemdetection.Gear.Heap.{Allocator, AllocatorLaws, Heap, box_new, hardware_object, put}
use fc2_systemdetection.Gear.Released.{Completes, IsReleased, run_hardware_calls-IsReleased}
use fc2_systemdetection.Gear.Score.{
  call_compute, call_get, compute_score, float_good, float_one, get_score, new_score,
  run_score_calls,
}
use fc2_systemdetection.Gear.Scored.{ScoreSpec, run_score_calls-get_score}
use fc2_systemdetection.Gear.Topology.{new_cpu_counts}
use fc2_systemdetection.Prelude.{
  [], arith, false, if◌then◌else◌, none, ok, refl, some, true, ℕ, ◌*◌, ◌<◌, ◌==◌, ◌^◌, ◌∷◌, ◌≡◌,
  ◌≤◌,
}

-- The state is the mask of the current thread. The third processor is refused to it.
instance abbrev four_os : CpuOs ℕ
four_os = record {
  process_affinity = λ t. 15;
  system_affinity = λ t. 15;
  set_thread_affinity = λ t mask. if mask == 4 then (t, false) else (mask, true);
  number_of_processors = λ t. 4;
  registry_mhz = some 5000;
}

-- The mask of the thread at the start.
abbrev main_thread : ℕ
main_thread = 15

new_cpu_run : new_cpu main_thread ≡ (
  record {
    base_field = 0;
    cpu_freq_low = 4_294_967_295;
    cpu_freq_high = 0;
    num_logical = 3;
    num_physical = 2;
    num_packages = 1;
    vendor_id = 4;
    simd_level = 8;
    reserved = 0;
    cpu_info_string = record { string_length = 0; string_data = zero_bytes 64 };
  },
  15,
)
unfolding new_cpu default_string get_cpu_topology_fixed get_cpu_mhz count_logical
new_cpu_run = refl

new_cpu_counts_example :
    ((new_cpu main_thread).0.num_packages ≡ 1)
    × (1 ≤ (new_cpu main_thread).0.num_physical)
    × ((new_cpu main_thread).0.num_physical ≤ (new_cpu main_thread).0.num_logical)
    × ((new_cpu main_thread).0.num_logical ≤ 2 * (new_cpu main_thread).0.num_physical)
    × (0 < (new_cpu main_thread).0.cpu_freq_low)
    × ((new_cpu main_thread).0.cpu_freq_low < 2 ^ 32)
new_cpu_counts_example = new_cpu_counts main_thread

score_runs :
    ((get_score new_score (λ a. 7) 1 0 0x10).0 ≡ float_good)
    × ((get_score new_score (λ a. 7) 1 0 0x10).2 0x10 ≡ float_one)
    × ((get_score new_score (λ a. 7) 4_294_967_295 0 0x10).2 0x10 ≡ 7)
unfolding get_score compute_score new_score
score_runs = (refl, refl, refl)

run_score_calls-get_score_example :
    ScoreSpec 1 0x10
      (run_score_calls (call_compute 0 5 ∷ call_get 1 5 0x20 ∷ []) (new_score, λ a. 7)).1
      (get_score
        (run_score_calls (call_compute 0 5 ∷ call_get 1 5 0x20 ∷ []) (new_score, λ a. 7)).0
        (run_score_calls (call_compute 0 5 ∷ call_get 1 5 0x20 ∷ []) (new_score, λ a. 7)).1
        1
        0
        0x10)
run_score_calls-get_score_example =
    run_score_calls-get_score (call_compute 0 5 ∷ call_get 1 5 0x20 ∷ []) (λ a. 7) 1 0 0x10

-- A desktop to the left of the origin, and null for the height.
resolution_run :
    (get_desktop_resolution
        (record {
          monitors = 1;
          get_window_rect =
              λ rect. record rect { left = 4_294_966_272; right = 896; bottom = 1080 };
        })
        (λ a. 0)
        0x10
        0).1
      0x10
    ≡ 1920
unfolding get_desktop_resolution
resolution_run = refl

-- Three places for objects.
instance abbrev small_allocator : Allocator
small_allocator = record {
  fresh = λ heap. elim (heap 0x100) [
    | none ↦ some 0x100
    | some a ↦ elim (heap 0x200) [
      | none ↦ some 0x200
      | some b ↦ elim (heap 0x300) [ none ↦ some 0x300 | some c ↦ none ]
    ]
  ];
}

small_allocator_laws : AllocatorLaws small_allocator
small_allocator_laws = record {
  nonnull = λ heap p found. ground (arith, found);
  unused = λ heap p found. ground (arith, found);
}

abbrev no_objects : Heap
no_objects a = none

abbrev hardware_heap : Heap
hardware_heap = put no_objects 0x100 (some (hardware_object new_hardware))

hardware_made : box_new no_objects (hardware_object new_hardware) ≡ ok (0x100, hardware_heap)
unfolding box_new
hardware_made = refl

run_hardware_calls-IsReleased_example :
    Completes
      (run_hardware_calls
        (record { heap = hardware_heap; threads = main_thread })
        0x100
        (call_cpu ∷ call_audio ∷ call_graphics ∷ call_cpu ∷ []))
      (λ w. IsReleased no_objects 0x100 3 w.heap)
run_hardware_calls-IsReleased_example =
    run_hardware_calls-IsReleased small_allocator_laws no_objects hardware_heap 0x100 main_thread
      (call_cpu ∷ call_audio ∷ call_graphics ∷ call_cpu ∷ []) 3 hardware_made
