-- ===== src/Gear/Released.antt =====
-- The calls of the game on the hardware object of src/gear/hardware.rs, up to its destructor.
use fc2_systemdetection.Gear.Cpu.{CpuOs, new_cpu}
use fc2_systemdetection.Gear.Hardware.{
  HardwareCall, World, call_audio, call_cpu, call_graphics, call_logical_disks, call_memory,
  call_network, call_os, destroy_hardware, get_audio, get_cpu, get_graphics, get_logical_disks,
  get_memory, get_network, get_os, new_hardware, read_this, run_hardware_call, run_hardware_calls,
}
use fc2_systemdetection.Gear.Heap.{
  Allocator, AllocatorLaws, Heap, HeapFault, box_new, cpu_object, graphics_object, hardware_object,
  out_of_memory, put,
}
use fc2_systemdetection.Gear.Lifetime.{
  cleared, cleared_before, destroyed, emptied, emptied_but_this,
}
use fc2_systemdetection.Gear.Owned.{Owns, grown, grown_cpu, grown_graphics, put_other, put_same}
use fc2_systemdetection.Prelude.{
  Bool-cases, List, Option-cases, Result, [], arith, err, if◌then◌else◌, inl, inr, none, ok,
  ok-injective, refl, some, subst, ℕ, ◌%◌, ◌==◌, ◌>>=◌, ◌∷◌, ◌≡◌, ◌⊎◌,
}

new_hardware-Owns :
    (before : Heap) (this : ℕ)
    → before this ≡ none
    → Owns before (put before this (some (hardware_object new_hardware))) this
unfolding new_hardware
new_hardware-Owns before this empty = record {
  hardware = new_hardware;
  here = put_same before this (some (hardware_object new_hardware));
  new_here = empty;
  cpu = inl refl;
  graphics = inl refl;
  others = λ a not_this not_cpu not_graphics. put_other before this a _ not_this;
}

-- The allocator has no memory left, or else the call gives a value with the property.
abbrev pub Completes : {A : Type 0} → Result HeapFault A → (A → Type 0) → Type 0
Completes {A} r Good = (r ≡ err out_of_memory) ⊎ ((a : A) × (r ≡ ok a) × Good a)

Completes-then :
    {A B : Type 0} {Good : A → Type 0} {Next : B → Type 0} (r : Result HeapFault A)
    (f : A → Result HeapFault B)
    → Completes r Good
    → ((a : A) → Good a → Completes (f a) Next)
    → Completes (r >>= f) Next
Completes-then r f (inl full) next = inl (rw full refl)
Completes-then r f (inr (a, done, good)) next = rw done (next a good)

module _ {Threads : Type 0} ⦃os : CpuOs Threads⦄ ⦃allocator : Allocator⦄
    (laws : AllocatorLaws allocator) (before : Heap) (this : ℕ) where
  abbrev OwnsIn : World Threads → Type 0
  OwnsIn w = Owns before w.heap this

  get_cpu-Owns : (w : World Threads) → OwnsIn w → Completes (get_cpu w this) (λ out. OwnsIn out.1)
  unfolding get_cpu read_this box_new
  get_cpu-Owns w o = elim (Bool-cases (o.hardware.m_cpu == 0)) [
    | inr set ↦ inr ((o.hardware.m_cpu, w), rw (o.here, set, read_this, get_cpu) refl, o)
    | inl null ↦ elim (Option-cases (allocator.fresh w.heap)) [
      | inl full ↦ inl (rw (o.here, null, full, read_this, get_cpu, box_new) refl)
      | inr (p, found) ↦ inr (
        (
          p,
          record {
            heap =
                grown w.heap this p (cpu_object (new_cpu w.threads).0)
                  (record o.hardware { m_cpu = p });
            threads = (new_cpu w.threads).1;
          },
        ),
        rw (o.here, null, found, read_this, get_cpu, box_new) refl,
        grown_cpu o p (new_cpu w.threads).0 (ground arith) (laws.nonnull w.heap p found)
            (laws.unused w.heap p found),
      )
    ]
  ]

  get_graphics-Owns :
      (w : World Threads) → OwnsIn w → Completes (get_graphics w this) (λ out. OwnsIn out.1)
  unfolding get_graphics read_this box_new
  get_graphics-Owns w o = elim (Bool-cases (o.hardware.m_graphics == 0)) [
    | inr set ↦ inr ((o.hardware.m_graphics, w), rw (o.here, set, read_this, get_graphics) refl, o)
    | inl null ↦ elim (Option-cases (allocator.fresh w.heap)) [
      | inl full ↦ inl (rw (o.here, null, full, read_this, get_graphics, box_new) refl)
      | inr (p, found) ↦ inr (
        (
          p,
          record {
            heap = grown w.heap this p graphics_object (record o.hardware { m_graphics = p });
            threads = w.threads;
          },
        ),
        rw (o.here, null, found, read_this, get_graphics, box_new) refl,
        grown_graphics o p (ground arith) (laws.nonnull w.heap p found)
            (laws.unused w.heap p found),
      )
    ]
  ]

  run_hardware_call-Owns :
      (w : World Threads) (c : HardwareCall)
      → OwnsIn w
      → Completes (run_hardware_call w this c) OwnsIn
  unfolding get_logical_disks get_memory get_network get_os get_audio read_this
  run_hardware_call-Owns w call_cpu o =
      Completes-then (get_cpu w this) _ (get_cpu-Owns w o) (λ out p. inr (out.1, refl, p))
  run_hardware_call-Owns w call_graphics o =
      Completes-then (get_graphics w this) _ (get_graphics-Owns w o) (λ out p. inr (out.1, refl, p))
  run_hardware_call-Owns w call_logical_disks o = inr (w, rw (o.here, read_this) refl, o)
  run_hardware_call-Owns w call_memory o = inr (w, rw (o.here, read_this) refl, o)
  run_hardware_call-Owns w call_network o = inr (w, rw (o.here, read_this) refl, o)
  run_hardware_call-Owns w call_os o = inr (w, rw (o.here, read_this) refl, o)
  run_hardware_call-Owns w call_audio o = inr (w, rw (o.here, read_this) refl, o)

  run_hardware_calls-Owns :
      (cs : List HardwareCall) (w : World Threads)
      → OwnsIn w
      → Completes (run_hardware_calls w this cs) OwnsIn
  run_hardware_calls-Owns [] w o = inr (w, refl, o)
  run_hardware_calls-Owns (c ∷ cs) w o =
      Completes-then (run_hardware_call w this c) _ (run_hardware_call-Owns w c o)
        (λ next p. run_hardware_calls-Owns cs next p)

-- What the destructor should leave: the heap from before the object was made, and where bit 0 of
-- the flags is clear the object itself as well.
abbrev pub left_over : Heap → Heap → ℕ → ℕ → Heap
left_over before heap this flags a =
    if flags % 2 == 1 then before a else if a == this then heap a else before a

-- The destructor succeeds, returns the object's address, and leaves what it should.
abbrev pub IsReleased : Heap → ℕ → ℕ → Heap → Type 0
IsReleased before this flags heap =
    (after : Heap) × (destroy_hardware heap this flags ≡ ok (this, after))
    × ((a : ℕ) → after a ≡ left_over before heap this flags a)

destroyed-IsReleased :
    {before heap : Heap} {this : ℕ} (flags : ℕ)
    → Owns before heap this
    → IsReleased before this flags heap
destroyed-IsReleased flags o = elim (Bool-cases (flags % 2 == 1)) [
  | inl odd ↦ (cleared o, rw (destroyed o flags) (rw odd refl), λ a. rw odd (cleared_before o a))
  | inr even ↦
      (emptied o, rw (destroyed o flags) (rw even refl), λ a. rw even (emptied_but_this o a))
]

-- Where the allocator behaves as documented, calls of the getters on a new hardware object use no
-- freed object: unless memory runs out they all succeed, and so does the destructor then, whatever
-- its flags. It frees exactly what has been allocated since the object was made where bit 0 of the
-- flags is set, and all of that but the object itself, which stays as it is, where the bit is clear.
pub run_hardware_calls-IsReleased :
    {Threads : Type 0} ⦃os : CpuOs Threads⦄ ⦃allocator : Allocator⦄ (laws : AllocatorLaws allocator)
    (before heap : Heap) (this : ℕ) (threads : Threads) (cs : List HardwareCall) (flags : ℕ)
    → box_new before (hardware_object new_hardware) ≡ ok (this, heap)
    → Completes
        (run_hardware_calls (record { heap = heap; threads = threads }) this cs)
        (λ w. IsReleased before this flags w.heap)
unfolding box_new
run_hardware_calls-IsReleased ⦃os⦄ ⦃allocator⦄ laws before heap this threads cs flags made =
    elim (Option-cases (allocator.fresh before)) [
      | inl full ↦ absurd (ground (arith, rw (full, box_new) at made))
      | inr (p, found) ↦
          let pair = ok-injective (rw (found, box_new) at made) in
          let start : Owns before heap this =
            subst (λ q. Owns before q.1 q.0) pair
              (new_hardware-Owns before p (laws.unused before p found)) in
          elim (run_hardware_calls-Owns laws before this cs
            (record { heap = heap; threads = threads }) start) [
              | inl no_room ↦ inl no_room
              | inr (w, done, o) ↦ inr (w, done, destroyed-IsReleased flags o)
            ]
    ]
