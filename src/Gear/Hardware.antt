-- ===== src/Gear/Hardware.antt =====
-- The methods of `GearHardware` of src/gear/hardware.rs, and the destructors of the other objects. `this` is the address of the object.
use fc2_systemdetection.Gear.Cpu.{CpuOs, new_cpu}
use fc2_systemdetection.Gear.Heap.{
  Allocator, GearHardware, Heap, HeapFault, box_drop, box_new, cpu_object, graphics_object,
  hardware_object, put, score_object, used_after_free,
}
use fc2_systemdetection.Prelude.{
  Bool, List, Result, [], bit_and, err, if◌then◌else◌, none, not, ok, some, ℕ, ◌+◌, ◌==◌, ◌>>=◌,
  ◌∷◌,
}

-- `GearHardware::new`
unfoldable pub new_hardware : GearHardware
new_hardware = record {
  m_cpu = 0;
  m_logical_disks = 0;
  m_memory = 0;
  m_network = 0;
  m_os = 0;
  m_graphics = 0;
  m_audio = 0;
}

-- The heap with what Windows keeps of the threads.
pub record World (Threads : Type 0) : Type 0 where
  pub heap : Heap
  pub threads : Threads

-- `&mut self`
unfoldable pub read_this : Heap → ℕ → Result HeapFault GearHardware
read_this heap this = elim (heap this) [
  | none ↦ err (used_after_free this)
  | some o ↦ elim o [
    | hardware_object h ↦ ok h
    | cpu_object c ↦ err (used_after_free this)
    | graphics_object ↦ err (used_after_free this)
    | score_object s ↦ err (used_after_free this)
  ]
]

-- `flags & 1 != 0`
abbrev pub frees_self : ℕ → Bool
frees_self flags = not (bit_and flags 1 == 0)

-- A destructor that frees no other object.
abbrev pub destroy_plain : Heap → ℕ → ℕ → Result HeapFault (ℕ × Heap)
destroy_plain heap this flags =
    (if frees_self flags then box_drop heap this else ok heap) >>= λ heap'. ok (this, heap')

-- `GearCPU::destructor`
unfoldable pub destroy_cpu : Heap → ℕ → ℕ → Result HeapFault (ℕ × Heap)
unfolding box_drop
destroy_cpu heap this flags = destroy_plain heap this flags

-- `GearGraphics::destructor`
unfoldable pub destroy_graphics : Heap → ℕ → ℕ → Result HeapFault (ℕ × Heap)
unfolding box_drop
destroy_graphics heap this flags = destroy_plain heap this flags

-- `GearScore::destructor`
unfoldable pub destroy_score : Heap → ℕ → ℕ → Result HeapFault (ℕ × Heap)
unfolding box_drop
destroy_score heap this flags = destroy_plain heap this flags

-- `if !pointer.is_null() { let _ = Box::from_raw(pointer); }`
unfoldable pub drop_pointer : Heap → ℕ → Result HeapFault Heap
unfolding box_drop
drop_pointer heap pointer = if pointer == 0 then ok heap else box_drop heap pointer

-- `GearHardware::destructor`
unfoldable pub destroy_hardware : Heap → ℕ → ℕ → Result HeapFault (ℕ × Heap)
unfolding read_this drop_pointer box_drop
destroy_hardware heap this flags = read_this heap this >>= λ h.
    drop_pointer heap h.m_cpu >>= λ heap'. drop_pointer heap' h.m_graphics >>= λ heap''.
    (if frees_self flags then box_drop heap'' this else ok heap'') >>= λ last. ok (this, last)

-- The getters that give a field.
abbrev pub get_field : (GearHardware → ℕ) → Heap → ℕ → Result HeapFault ℕ
get_field field heap this = read_this heap this >>= λ h. ok (field h)

unfoldable pub get_logical_disks : Heap → ℕ → Result HeapFault ℕ
unfolding read_this
get_logical_disks = get_field (λ h. h.m_logical_disks)

unfoldable pub get_memory : Heap → ℕ → Result HeapFault ℕ
unfolding read_this
get_memory = get_field (λ h. h.m_memory)

unfoldable pub get_network : Heap → ℕ → Result HeapFault ℕ
unfolding read_this
get_network = get_field (λ h. h.m_network)

unfoldable pub get_os : Heap → ℕ → Result HeapFault ℕ
unfolding read_this
get_os = get_field (λ h. h.m_os)

unfoldable pub get_audio : Heap → ℕ → Result HeapFault ℕ
unfolding read_this
get_audio = get_field (λ h. h.m_audio)

-- `get_cpu_info_access`: ten words of four bytes stand before the text.
abbrev pub get_cpu_info_access : ℕ → ℕ
get_cpu_info_access this = this + 40

-- The getters of the object.
pub data HardwareCall : Type 0 where
  call_cpu call_graphics call_logical_disks call_memory call_network call_os call_audio :
      HardwareCall

module _ {Threads : Type 0} ⦃os : CpuOs Threads⦄ ⦃allocator : Allocator⦄ where
  -- `get_cpu`
  unfoldable pub get_cpu : World Threads → ℕ → Result HeapFault (ℕ × World Threads)
  unfolding read_this new_cpu box_new
  get_cpu w this = read_this w.heap this >>= λ h.
      if h.m_cpu == 0
      then (let (cpu, threads) = new_cpu w.threads in
          box_new w.heap (cpu_object cpu) >>= λ made. ok (
            made.0,
            record {
              heap = put made.1 this (some (hardware_object (record h { m_cpu = made.0 })));
              threads = threads;
            },
          ))
      else ok (h.m_cpu, w)

  -- `get_graphics`
  unfoldable pub get_graphics : World Threads → ℕ → Result HeapFault (ℕ × World Threads)
  unfolding read_this box_new
  get_graphics w this = read_this w.heap this >>= λ h.
      if h.m_graphics == 0
      then (box_new w.heap graphics_object >>= λ made. ok (
        made.0,
        record w {
          heap = put made.1 this (some (hardware_object (record h { m_graphics = made.0 })));
        },
      ))
      else ok (h.m_graphics, w)

  -- One call of the game on the object; a getter of a field leaves the heap as it is.
  abbrev pub run_hardware_call : World Threads → ℕ → HardwareCall → Result HeapFault (World Threads)
  run_hardware_call w this call_cpu = get_cpu w this >>= λ out. ok out.1
  run_hardware_call w this call_graphics = get_graphics w this >>= λ out. ok out.1
  run_hardware_call w this call_logical_disks = get_logical_disks w.heap this >>= λ pointer. ok w
  run_hardware_call w this call_memory = get_memory w.heap this >>= λ pointer. ok w
  run_hardware_call w this call_network = get_network w.heap this >>= λ pointer. ok w
  run_hardware_call w this call_os = get_os w.heap this >>= λ pointer. ok w
  run_hardware_call w this call_audio = get_audio w.heap this >>= λ pointer. ok w

  abbrev pub run_hardware_calls :
      World Threads → ℕ → List HardwareCall → Result HeapFault (World Threads)
  run_hardware_calls w this [] = ok w
  run_hardware_calls w this (c ∷ cs) =
      run_hardware_call w this c >>= λ next. run_hardware_calls next this cs
