-- ===== src/Patches/Leaves.antt =====
-- One write of `PatchPlan::apply` that fails: what the rollback behind it leaves.
use fc2_systemdetection.Memory.Bytes.{Bytes, poke, poke-nil}
use fc2_systemdetection.Memory.Checked.{Checked, WriteState}
use fc2_systemdetection.Memory.Late.{IsLateAt, TellsLate, write_checked-TellsLate}
use fc2_systemdetection.Memory.Os.{Machine, Os}
use fc2_systemdetection.Memory.Writes.{Replaced}
use fc2_systemdetection.Patches.Error.{
  PatchError, PatchErrors, Planned, add_error, from_memory, memory_error, no_errors, partial_write,
}
use fc2_systemdetection.Patches.Plan.{CheckedWrite, apply_write, report_failure, roll_back}
use fc2_systemdetection.Patches.Rollback.{ApartFrom, Trail, roll_back-Trail}
use fc2_systemdetection.Prelude.{
  All, List, Member, [], arith, err, inl, inr, length, ok, refl, reverse, sym, ℕ, ◌∙◌, ◌∷◌, ◌≡◌,
  ◌⊎◌,
}

-- The report says that some writes may be left in place.
abbrev pub IsPartial : PatchError → Type 0
IsPartial (partial_write n e es) = Unit
IsPartial _ = ⊥

-- One write of the plan stands in memory, and nothing else has changed.
pub record LeftBehind (start : Bytes) (ws : List CheckedWrite) (now : Bytes) : Type 0 where
  pub write : CheckedWrite
  pub planned : Member write ws
  pub stands : now ≡ poke start write.address write.replacement

-- The same, of a write at an address.
abbrev pub LeftAt : ℕ → Bytes → List CheckedWrite → Bytes → Type 0
LeftAt a start ws now = (l : LeftBehind start ws now) × (l.write.address ≡ a)

-- The error is, alone, one that comes after a write at the address is made.
abbrev pub IsTornAt : ℕ → PatchError → Type 0
IsTornAt a (memory_error e) = IsLateAt a e
IsTornAt a _ = ⊥

All-apart_empty : (ws : List CheckedWrite) → All (ApartFrom 0 0) ws
All-apart_empty [] = tt
All-apart_empty (w ∷ ws) = ((λ c i j. omega arith), All-apart_empty ws)

-- What is left of a run that fails with an error: the bytes from its start or the write that
-- failed, and for an error that comes after a write just that write.
abbrev pub Leaves : Bytes → List CheckedWrite → PatchError → Bytes → Type 0
Leaves start ws e now =
    ((now ≡ start) ⊎ LeftBehind start ws now) × ((b : ℕ) → IsTornAt b e → LeftAt b start ws now)

LeftAt-cons :
    (b : ℕ) (start : Bytes) (w : CheckedWrite) (ws : List CheckedWrite) (now : Bytes)
    → LeftAt b start ws now
    → LeftAt b start (w ∷ ws) now
LeftAt-cons b start w ws now (l, at) =
    (record { write = l.write; planned = inr l.planned; stands = l.stands }, at)

module _ {Pages : Type 0} ⦃os : Os Pages⦄ where
  -- A run that ends in an error leaves that, or says that its rollback is incomplete.
  abbrev pub Fails : Bytes → List CheckedWrite → Planned WriteState × Machine Pages → Type 0
  Fails start ws (ok s, m') = Unit
  Fails start ws (err e, m') = IsPartial e ⊎ Leaves start ws e m'.bytes

  -- An error that comes after a write says that it is made.
  abbrev pub TellsTorn : Bytes → CheckedWrite → Planned WriteState × Machine Pages → Type 0
  TellsTorn mem w (ok s, m') = Unit
  TellsTorn mem w (err e, m') =
      (b : ℕ) → IsTornAt b e → (w.address ≡ b) × (m'.bytes ≡ poke mem w.address w.replacement)

  pub apply_write-TellsTorn :
      (m : Machine Pages) (w : CheckedWrite) → TellsTorn m.bytes w (apply_write m w)
  unfolding apply_write
  apply_write-TellsTorn m w = via _ (write_checked-TellsLate m w.address w.expected w.replacement)
    where
      via :
          (out : Checked WriteState × Machine Pages)
          → TellsLate m.bytes w.address w.replacement out
          → TellsTorn m.bytes w (from_memory out.0, out.1)
      via (ok s, m') h = tt
      via (err e, m') h = h

  report-Fails :
      (start : Bytes) (ws : List CheckedWrite) (count : ℕ) (e : PatchError) (es : PatchErrors)
      (m' : Machine Pages)
      → (es ≡ no_errors → Leaves start ws e m'.bytes)
      → Fails start ws (err (report_failure count e es), m')
  report-Fails start ws count e no_errors m' h = inr (h refl)
  report-Fails start ws count e (add_error x xs) m' h = inl tt

  -- The rollback of the trail leaves a write behind it in place.
  stands_behind :
      {start mem : Bytes} (w : CheckedWrite) (ws trail : List CheckedWrite) (m' : Machine Pages)
      → Trail start trail mem
      → All (ApartFrom w.address (length w.replacement)) trail
      → m'.bytes ≡ poke mem w.address w.replacement
      → (roll_back m' trail).0 ≡ no_errors
      → LeftAt w.address start (w ∷ ws) (roll_back m' trail).1.bytes
  stands_behind w ws trail m' t apart now clean = (
    record {
      write = w;
      planned = inl refl;
      stands = roll_back-Trail w.address w.replacement m' t apart now clean;
    },
    refl,
  )

  -- The error arm of the loop.
  pub stop-Fails :
      {start mem : Bytes} (w : CheckedWrite) (ws made trail : List CheckedWrite) (count : ℕ)
      (e : PatchError) (m' : Machine Pages)
      → reverse made ≡ trail
      → Trail start trail mem
      → All (ApartFrom w.address (length w.replacement)) trail
      → (m'.bytes ≡ mem) ⊎ Replaced mem w.address w.expected w.replacement m'.bytes
      → TellsTorn mem w (err e, m')
      → Fails start (w ∷ ws) (
        err (report_failure count e (roll_back m' (reverse made)).0),
        (roll_back m' (reverse made)).1,
      )
  stop-Fails {start} {mem} w ws made trail count e m' back t apart outcome tells = rw back (
      report-Fails start (w ∷ ws) count e _ (roll_back m' trail).1 λ clean. (
        elim outcome [
          | inl same ↦ inl (
              roll_back-Trail 0 [] m' t (All-apart_empty trail) (same ∙ sym (poke-nil mem 0)) clean
              ∙ poke-nil start 0)
          | inr torn ↦ inr (stands_behind w ws trail m' t apart torn.now clean).0
        ],
        λ b late.
            let (at, now) = tells b late in
            let (l, here) = stands_behind w ws trail m' t apart now clean in (l, here ∙ at),
      ))

  pub Fails-cons :
      (start : Bytes) (w : CheckedWrite) (ws : List CheckedWrite)
      (out : Planned WriteState × Machine Pages)
      → Fails start ws out
      → Fails start (w ∷ ws) out
  Fails-cons start w ws (ok s, m') h = tt
  Fails-cons start w ws (err e, m') (inl p) = inl p
  Fails-cons start w ws (err e, m') (inr (left, torn)) = inr (
    elim left [
      | inl same ↦ inl same
      | inr l ↦ inr (LeftAt-cons l.write.address start w ws m'.bytes (l, refl)).0
    ],
    λ b late. LeftAt-cons b start w ws m'.bytes (torn b late),
  )
