-- ===== src/Patches/Rollback.antt =====
-- The rollback in `PatchPlan::apply` of src/patches/mod.rs.
use fc2_systemdetection.Memory.Again.{write_checked_undo}
use fc2_systemdetection.Memory.Bytes.{Bytes, Disjoint, peek-poke_apart, poke, poke_comm}
use fc2_systemdetection.Memory.Checked.{MemoryError, WriteState}
use fc2_systemdetection.Memory.Os.{Machine, Os}
use fc2_systemdetection.Memory.Writes.{Replaced}
use fc2_systemdetection.Patches.Error.{PatchErrors, Planned, from_memory, no_errors}
use fc2_systemdetection.Patches.Plan.{CheckedWrite, push_error, roll_back, roll_back_write}
use fc2_systemdetection.Prelude.{
  All, List, Result, [], ap, arith, err, length, ok, refl, ℕ, ◌∙◌, ◌∷◌, ◌≡◌,
}

-- The writes, newest first, that lead from the bytes `start` to the given bytes.
pub data Trail (start : Bytes) : List CheckedWrite → Bytes → Type 0 where
  nothing_made : Trail start [] start
  one_made :
      {w : CheckedWrite} {ws : List CheckedWrite} {mem mem' : Bytes}
      → Trail start ws mem
      → Replaced mem w.address w.expected w.replacement mem'
      → Trail start (w ∷ ws) mem'

-- A range of `n` bytes at `a` is disjoint from the write's range.
abbrev pub ApartFrom : ℕ → ℕ → CheckedWrite → Type 0
ApartFrom a n w = Disjoint w.address (length w.replacement) a n

push_error-none :
    (r : Planned WriteState) (es : PatchErrors)
    → push_error r es ≡ no_errors
    → ((s : WriteState) × (r ≡ ok s)) × (es ≡ no_errors)
push_error-none (ok s) es h = ((s, refl), h)
push_error-none (err e) es h = cc

from_memory-ok {ℓ} :
    {A : Type ℓ} (r : Result MemoryError A) {a : A} → from_memory r ≡ ok a → r ≡ ok a
from_memory-ok (ok a) h = ground arith
from_memory-ok (err e) h = cc

-- A write made under an overlay of other bytes, on a range disjoint from it, is the same write.
poke-Replaced :
    {mem mem' : Bytes} {a : ℕ} {e r : List ℕ} (b : ℕ) (ys : List ℕ)
    → Disjoint a (length r) b (length ys)
    → Replaced mem a e r mem'
    → Replaced (poke mem b ys) a e r (poke mem' b ys)
poke-Replaced {mem} {mem'} {a} {e} {r} b ys apart w = record {
  held = peek-poke_apart mem a (length r) b ys apart ∙ w.held;
  differs = w.differs;
  lengths = w.lengths;
  now = ap (λ held. poke held b ys) w.now ∙ poke_comm mem a b r ys apart;
}

module _ {Pages : Type 0} ⦃os : Os Pages⦄ where
  -- A rollback with no error undoes every write of the trail, also where other bytes, disjoint
  -- from these writes, have been written since.
  pub roll_back-Trail :
      {start mem : Bytes} {ws : List CheckedWrite} (b : ℕ) (ys : List ℕ) (m : Machine Pages)
      → Trail start ws mem
      → All (ApartFrom b (length ys)) ws
      → m.bytes ≡ poke mem b ys
      → (roll_back m ws).0 ≡ no_errors
      → (roll_back m ws).1.bytes ≡ poke start b ys
  unfolding roll_back roll_back_write
  roll_back-Trail b ys m nothing_made apart now h = now
  roll_back-Trail b ys m (one_made {w} {ws} {mem} {mem'} t made) (apart, rest) now h =
      let (result, others) = push_error-none _ _ h in
      let undone =
        write_checked_undo (poke mem b ys) m w.address w.expected w.replacement
          (rw now (poke-Replaced b ys apart made)) in
      let back = undone.0 result.0 (from_memory-ok _ result.1) in
      roll_back-Trail b ys _ t rest back others
