-- ===== src/Gear/Owned.antt =====
-- The objects that the hardware object of src/gear/hardware.rs points to.
use fc2_systemdetection.Gear.Cpu.{GearCpu}
use fc2_systemdetection.Gear.Heap.{
  GearHardware, Heap, Object, cpu_object, graphics_object, hardware_object, put,
}
use fc2_systemdetection.Prelude.{
  Option, ap, arith, inl, inr, none, refl, some, sym, ℕ, ◌<◌, ◌∙◌, ◌≡◌, ◌≢◌, ◌⊎◌,
}

-- A pointer that is null, or holds an object that was not there before.
abbrev pub Slot : Heap → Heap → ℕ → (Object → Type 0) → Type 0
Slot before heap p Kind =
    (p ≡ 0) ⊎ ((o : Object) × Kind o × (0 < p) × (heap p ≡ some o) × (before p ≡ none))

abbrev pub IsCpu : Object → Type 0
IsCpu o = (c : GearCpu) × (o ≡ cpu_object c)

abbrev pub IsGraphics : Object → Type 0
IsGraphics o = o ≡ graphics_object

-- The heap has the hardware object with what it points to, and else what it had before.
pub record Owns (before heap : Heap) (this : ℕ) : Type 0 where
  pub hardware : GearHardware
  pub here : heap this ≡ some (hardware_object hardware)
  pub new_here : before this ≡ none
  pub cpu : Slot before heap hardware.m_cpu IsCpu
  pub graphics : Slot before heap hardware.m_graphics IsGraphics
  pub others :
      (a : ℕ)
      → a ≢ this
      → (hardware.m_cpu ≡ 0) ⊎ (a ≢ hardware.m_cpu)
      → (hardware.m_graphics ≡ 0) ⊎ (a ≢ hardware.m_graphics)
      → heap a ≡ before a

pub put_same : (heap : Heap) (a : ℕ) (o : Option Object) → put heap a o a ≡ o
put_same heap a o = ground arith

pub put_other : (heap : Heap) (a b : ℕ) (o : Option Object) → b ≢ a → put heap a o b ≡ heap b
put_other heap a b o apart = ground arith

-- Two addresses with different objects are different.
pub apart_by :
    (heap : Heap) (a b : ℕ) (o p : Option Object) → heap a ≡ o → heap b ≡ p → o ≢ p → a ≢ b
apart_by heap a b o p at_a at_b differ same = differ (sym at_a ∙ ap heap same ∙ at_b)

pub some_ne_none : {A : Type 0} (x : A) → some x ≢ none
some_ne_none x h = cc

pub slot_apart :
    (before heap : Heap) (p b : ℕ) (Kind : Object → Type 0)
    → Slot before heap p Kind
    → ((o : Object) → Kind o → heap b ≢ some o)
    → (p ≡ 0) ⊎ (b ≢ p)
slot_apart before heap p b Kind (inl null) differ = inl null
slot_apart before heap p b Kind (inr (o, kind, positive, held, fresh)) differ =
    inr (λ same. differ o kind (ap heap same ∙ held))

pub slot_kept :
    (before heap heap' : Heap) (p : ℕ) (Kind : Object → Type 0)
    → (0 < p → heap p ≢ none → heap' p ≡ heap p)
    → Slot before heap p Kind
    → Slot before heap' p Kind
slot_kept before heap heap' p Kind same (inl null) = inl null
slot_kept before heap heap' p Kind same (inr (o, kind, positive, held, fresh)) =
    inr (o, kind, positive, same positive (λ h. some_ne_none o (sym held ∙ h)) ∙ held, fresh)

cpu_not_hardware : (o : Object) (h : GearHardware) → IsCpu o → some (hardware_object h) ≢ some o
cpu_not_hardware o h (c, is) e = cc

graphics_not_hardware :
    (o : Object) (h : GearHardware) → IsGraphics o → some (hardware_object h) ≢ some o
graphics_not_hardware o h is e = cc

-- A new object whose address is put into the hardware object.
abbrev pub grown : Heap → ℕ → ℕ → Object → GearHardware → Heap
grown heap this p o h = put (put heap p (some o)) this (some (hardware_object h))

module _ {before heap : Heap} {this : ℕ} (w : Owns before heap this) where
  pub cpu_apart : (w.hardware.m_cpu ≡ 0) ⊎ (this ≢ w.hardware.m_cpu)
  cpu_apart =
      slot_apart before heap w.hardware.m_cpu this IsCpu w.cpu
        (λ o kind e. cpu_not_hardware o w.hardware kind (sym w.here ∙ e))

  pub graphics_apart : (w.hardware.m_graphics ≡ 0) ⊎ (this ≢ w.hardware.m_graphics)
  graphics_apart =
      slot_apart before heap w.hardware.m_graphics this IsGraphics w.graphics
        (λ o kind e. graphics_not_hardware o w.hardware kind (sym w.here ∙ e))

  -- Where no object is, nothing was before.
  empty_before : (a : ℕ) → heap a ≡ none → (before a ≡ none) × (a ≢ this)
  empty_before a empty =
      let not_this : a ≢ this = λ same.
        some_ne_none (hardware_object w.hardware) (sym w.here ∙ ap heap (sym same) ∙ empty) in
      (
        sym (
              w.others a not_this
                (slot_apart before heap w.hardware.m_cpu a IsCpu w.cpu
                  (λ o kind e. some_ne_none o (sym e ∙ empty)))
                (slot_apart before heap w.hardware.m_graphics a IsGraphics w.graphics
                  (λ o kind e. some_ne_none o (sym e ∙ empty))))
            ∙ empty,
        not_this,
      )

  grown_same :
      (p : ℕ) (o : Object) (h : GearHardware) (a : ℕ)
      → a ≢ this
      → a ≢ p
      → grown heap this p o h a ≡ heap a
  grown_same p o h a not_this not_p =
      put_other (put heap p (some o)) this a (some (hardware_object h)) not_this
      ∙ put_other heap p a (some o) not_p

  grown_new :
      (p : ℕ) (o : Object) (h : GearHardware) (Kind : Object → Type 0)
      → Kind o
      → 0 < p
      → heap p ≡ none
      → Slot before (grown heap this p o h) p Kind
  grown_new p o h Kind kind positive empty =
      let (fresh, not_this) = empty_before p empty in
      inr (
        o,
        kind,
        positive,
        put_other (put heap p (some o)) this p (some (hardware_object h)) not_this
            ∙ put_same heap p (some o),
        fresh,
      )

  grown_kept :
      (p : ℕ) (o : Object) (h : GearHardware) (q : ℕ) (Kind : Object → Type 0)
      → heap p ≡ none
      → (q ≡ 0) ⊎ (this ≢ q)
      → Slot before heap q Kind
      → Slot before (grown heap this p o h) q Kind
  grown_kept p o h q Kind empty (inl null) slot = inl null
  grown_kept p o h q Kind empty (inr apart) slot =
      slot_kept before heap (grown heap this p o h) q Kind
        (λ positive held.
          grown_same p o h q (λ same. apart (sym same)) (λ same. held (ap heap same ∙ empty)))
        slot

  pub grown_cpu :
      (p : ℕ) (c : GearCpu)
      → w.hardware.m_cpu ≡ 0
      → 0 < p
      → heap p ≡ none
      → Owns before (grown heap this p (cpu_object c) (record w.hardware { m_cpu = p })) this
  grown_cpu p c null positive empty = record {
    hardware = record w.hardware { m_cpu = p };
    here = put_same (put heap p (some (cpu_object c))) this _;
    new_here = w.new_here;
    cpu = grown_new p (cpu_object c) _ IsCpu (c, refl) positive empty;
    graphics =
        grown_kept p (cpu_object c) _ w.hardware.m_graphics IsGraphics empty graphics_apart
          w.graphics;
    others = λ a not_this not_cpu not_graphics. elim not_cpu [
      | inl zero_ ↦ absurd (omega (arith, positive, zero_))
      | inr not_p ↦
          grown_same p (cpu_object c) _ a not_this not_p
          ∙ w.others a not_this (inl null) not_graphics
    ];
  }

  pub grown_graphics :
      (p : ℕ)
      → w.hardware.m_graphics ≡ 0
      → 0 < p
      → heap p ≡ none
      → Owns before (grown heap this p graphics_object (record w.hardware { m_graphics = p })) this
  grown_graphics p null positive empty = record {
    hardware = record w.hardware { m_graphics = p };
    here = put_same (put heap p (some graphics_object)) this _;
    new_here = w.new_here;
    cpu = grown_kept p graphics_object _ w.hardware.m_cpu IsCpu empty cpu_apart w.cpu;
    graphics = grown_new p graphics_object _ IsGraphics refl positive empty;
    others = λ a not_this not_cpu not_graphics. elim not_graphics [
      | inl zero_ ↦ absurd (omega (arith, positive, zero_))
      | inr not_p ↦
          grown_same p graphics_object _ a not_this not_p ∙ w.others a not_this not_cpu (inl null)
    ];
  }
