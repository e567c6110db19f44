-- ===== src/Gear/Lifetime.antt =====
-- The objects that src/gear/hardware.rs allocates and frees.
use fc2_systemdetection.Gear.Hardware.{destroy_hardware, drop_pointer, frees_self, read_this}
use fc2_systemdetection.Gear.Heap.{Heap, Object, box_drop, hardware_object, put}
use fc2_systemdetection.Gear.Owned.{
  IsCpu, IsGraphics, Owns, Slot, cpu_apart, graphics_apart, put_other, put_same, slot_apart,
  slot_kept,
}
use fc2_systemdetection.Prelude.{
  Bool-cases, arith, bit_and-one, false, if◌then◌else◌, inl, inr, none, ok, refl, some, sym, true,
  ℕ, ◌%◌, ◌==◌, ◌∙◌, ◌≡◌, ◌≢◌, ◌⊎◌,
}

-- A heap without one object.
abbrev without : Heap → ℕ → Heap
without heap p = if p == 0 then heap else put heap p none

drop_slot :
    (before heap : Heap) (p : ℕ) (Kind : Object → Type 0)
    → Slot before heap p Kind
    → drop_pointer heap p ≡ ok (without heap p)
unfolding drop_pointer box_drop
drop_slot before heap p Kind (inl null) = rw null refl
drop_slot before heap p Kind (inr (o, kind, positive, held, fresh)) =
    let set : (p == 0) ≡ false = ground arith in rw (set, held, box_drop) refl

without_other : (heap : Heap) (p b : ℕ) → (p ≡ 0) ⊎ (b ≢ p) → without heap p b ≡ heap b
without_other heap p b (inl null) = rw null refl
without_other heap p b (inr apart) = elim (Bool-cases (p == 0)) [
  | inl null ↦ rw null refl
  | inr set ↦ rw set (put_other heap p b none apart)
]

-- With the object of a slot removed, an address has what it had before, if all others have.
without_slot :
    (before heap : Heap) (p a : ℕ) (Kind : Object → Type 0)
    → Slot before heap p Kind
    → ((p ≡ 0) ⊎ (a ≢ p) → heap a ≡ before a)
    → without heap p a ≡ before a
without_slot before heap p a Kind (inl null) rest = rw null (rest (inl null))
without_slot before heap p a Kind (inr (o, kind, positive, held, fresh)) rest =
    let set : (p == 0) ≡ false = ground arith in
    elim (Bool-cases (a == p)) [
      | inl same ↦ let e : a ≡ p = ground arith in rw set (rw e (put_same heap p none ∙ sym fresh))
      | inr other ↦
          let apart : a ≢ p = ground arith in
          rw set (put_other heap p a none apart ∙ rest (inr apart))
    ]

module _ {before heap : Heap} {this : ℕ} (w : Owns before heap this) where
  IsGraphics-left : Slot before (without heap w.hardware.m_cpu) w.hardware.m_graphics IsGraphics
  IsGraphics-left =
      slot_kept before heap (without heap w.hardware.m_cpu) w.hardware.m_graphics IsGraphics
        (λ positive held.
          without_other heap w.hardware.m_cpu w.hardware.m_graphics (elim w.graphics [
            | inl null ↦ absurd (omega (arith, positive, null))
            | inr (o, is_graphics, set, found, fresh) ↦
                slot_apart before heap w.hardware.m_cpu w.hardware.m_graphics IsCpu w.cpu
                  (λ c is_cpu e. both o c is_graphics is_cpu (sym found ∙ e))
          ]))
        w.graphics
    where
      both : (o c : Object) → IsGraphics o → IsCpu c → some o ≢ some c
      both o c g (d, is) e = cc

  -- What the destructor leaves when it does not free the object itself.
  abbrev pub emptied : Heap
  emptied = without (without heap w.hardware.m_cpu) w.hardware.m_graphics

  -- What it leaves when it also frees the object.
  abbrev pub cleared : Heap
  cleared = put emptied this none

  emptied_this : emptied this ≡ heap this
  emptied_this =
      without_other (without heap w.hardware.m_cpu) w.hardware.m_graphics this (graphics_apart w)
      ∙ without_other heap w.hardware.m_cpu this (cpu_apart w)

  emptied_before : (a : ℕ) → a ≢ this → emptied a ≡ before a
  emptied_before a not_this =
      without_slot before (without heap w.hardware.m_cpu) w.hardware.m_graphics a IsGraphics
        IsGraphics-left
        (λ not_graphics.
          without_slot before heap w.hardware.m_cpu a IsCpu w.cpu
            (λ not_cpu. w.others a not_this not_cpu not_graphics))

  pub emptied_but_this : (a : ℕ) → emptied a ≡ (if a == this then heap a else before a)
  emptied_but_this a = elim (Bool-cases (a == this)) [
    | inl same ↦ let e : a ≡ this = ground arith in rw same (rw e emptied_this)
    | inr other ↦ rw other (emptied_before a (ground arith))
  ]

  pub cleared_before : (a : ℕ) → cleared a ≡ before a
  cleared_before a = elim (Bool-cases (a == this)) [
    | inl same ↦
        let e : a ≡ this = ground arith in rw e (put_same emptied this none ∙ sym w.new_here)
    | inr other ↦
        let not_this : a ≢ this = ground arith in
        put_other emptied this a none not_this ∙ emptied_before a not_this
  ]

  -- The destructor empties both slots, and frees the object where bit 0 of the flags is set.
  pub destroyed :
      (flags : ℕ)
      → destroy_hardware heap this flags ≡ ok (this, if flags % 2 == 1 then cleared else emptied)
  unfolding destroy_hardware read_this box_drop
  destroyed flags =
      let heap1 = without heap w.hardware.m_cpu in
      let left : emptied this ≡ some (hardware_object w.hardware) = emptied_this ∙ w.here in
      rw (w.here, read_this)
        (rw (drop_slot before heap w.hardware.m_cpu IsCpu w.cpu) (
          rw (drop_slot before heap1 w.hardware.m_graphics IsGraphics IsGraphics-left)
            (elim (Bool-cases (flags % 2 == 1)) [
              | inl odd ↦
                  let bit : frees_self flags ≡ true = ground (arith, bit_and-one flags) in
                  rw (bit, odd) (rw (left, box_drop) refl)
              | inr even ↦
                  let bit : frees_self flags ≡ false = ground (arith, bit_and-one flags) in
                  rw (bit, even) refl
            ])))
