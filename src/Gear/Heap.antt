-- ===== src/Gear/Heap.antt =====
-- The heap of Rust's `Box`, for the objects of src/gear. The allocator is a parameter.
use fc2_systemdetection.Gear.Cpu.{GearCpu}
use fc2_systemdetection.Gear.Score.{GearScore}
use fc2_systemdetection.Prelude.{
  Option, Result, err, if◌then◌else◌, none, ok, some, ℕ, ◌<◌, ◌==◌, ◌≡◌,
}

-- The pointers of `GearHardware` of hardware.rs, by their addresses; 0 is null. The table of its
-- methods is left out.
pub record GearHardware : Type 0 where
  pub m_cpu : ℕ
  pub m_logical_disks : ℕ
  pub m_memory : ℕ
  pub m_network : ℕ
  pub m_os : ℕ
  pub m_graphics : ℕ
  pub m_audio : ℕ

-- The objects that have been allocated. `GearGraphics` has no field but the table of its methods.
pub data Object : Type 0 where
  cpu_object : GearCpu → Object
  graphics_object : Object
  hardware_object : GearHardware → Object
  score_object : GearScore → Object

-- `none` where no object starts.
abbrev pub Heap : Type 0
Heap = ℕ → Option Object

abbrev pub put : Heap → ℕ → Option Object → Heap
put heap address o a = if a == address then o else heap a

-- Uses of an address at which no object of the type lives, and the end of the process where the
-- allocator has no memory left.
pub data HeapFault : Type 0 where
  out_of_memory : HeapFault
  freed_twice : ℕ → HeapFault
  used_after_free : ℕ → HeapFault

-- Where the allocator puts the next object, if it has memory left.
pub record Allocator : Type 0 where
  pub fresh : Heap → Option ℕ

-- Documented of `Box::into_raw`: the pointer is not null, and no other object is there.
pub record AllocatorLaws (allocator : Allocator) : Type 0 where
  pub nonnull : (heap : Heap) (p : ℕ) → allocator.fresh heap ≡ some p → 0 < p
  pub unused : (heap : Heap) (p : ℕ) → allocator.fresh heap ≡ some p → heap p ≡ none

-- `Box::into_raw(Box::new(..))`
unfoldable pub box_new : ⦃allocator : Allocator⦄ → Heap → Object → Result HeapFault (ℕ × Heap)
box_new ⦃allocator⦄ heap o = elim (allocator.fresh heap) [
  | none ↦ err out_of_memory
  | some p ↦ ok (p, put heap p (some o))
]

-- `let _ = Box::from_raw(..)`
unfoldable pub box_drop : Heap → ℕ → Result HeapFault Heap
box_drop heap address = elim (heap address) [
  | none ↦ err (freed_twice address)
  | some o ↦ ok (put heap address none)
]
