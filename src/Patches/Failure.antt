-- ===== src/Patches/Failure.antt =====
-- `PatchPlan::apply` when a write fails: the rollback, and what it cannot undo.
use mathlib.Core.List.{reverse-append}
use fc2_systemdetection.Memory.Bytes.{Bytes}
use fc2_systemdetection.Memory.Checked.{MemoryError, WriteState, already_applied, applied}
use fc2_systemdetection.Memory.Late.{IsLateAt}
use fc2_systemdetection.Memory.Os.{Machine, Os}
use fc2_systemdetection.Patches.Apply.{AppliedSpec, apply_write_lem}
use fc2_systemdetection.Patches.Error.{PatchError, Planned, memory_error}
use fc2_systemdetection.Patches.Leaves.{
  Fails, Fails-cons, IsPartial, Leaves, LeftAt, LeftBehind, TellsTorn, apply_write-TellsTorn,
  stop-Fails,
}
use fc2_systemdetection.Patches.Plan.{
  CheckedWrite, PatchPlan, apply, apply_write, apply_writes, match_write, report_failure, roll_back,
}
use fc2_systemdetection.Patches.Rollback.{ApartFrom, Trail, nothing_made, one_made}
use fc2_systemdetection.Prelude.{
  All, All-zip, List, [], ap, err, inl, inr, length, ok, refl, reverse, subst, sym, ℕ, ◌++◌, ◌+◌,
  ◌∙◌, ◌∷◌, ◌≡◌, ◌⊎◌,
}

-- The ranges of the writes are disjoint from one another.
abbrev pub AreSeparate : List CheckedWrite → Type 0
AreSeparate [] = Unit
AreSeparate (w ∷ ws) = All (λ v. ApartFrom v.address (length v.replacement) w) ws × AreSeparate ws

-- The ranges of the writes are disjoint from those of the trail.
abbrev Cross : List CheckedWrite → List CheckedWrite → Type 0
Cross trail ws = All (λ v. All (ApartFrom v.address (length v.replacement)) trail) ws

Cross-nil : (ws : List CheckedWrite) → Cross [] ws
Cross-nil [] = tt
Cross-nil (w ∷ ws) = (tt, Cross-nil ws)

module _ {Pages : Type 0} ⦃os : Os Pages⦄ where
  match_write-Fails :
      {start mem : Bytes} (w : CheckedWrite) (ws made trail : List CheckedWrite) (count : ℕ)
      (out : Planned WriteState × Machine Pages)
      (f g : Machine Pages → Planned WriteState × Machine Pages)
      → AppliedSpec mem w out
      → TellsTorn mem w out
      → reverse made ≡ trail
      → Trail start trail mem
      → All (ApartFrom w.address (length w.replacement)) trail
      → ((m' : Machine Pages) → Trail start (w ∷ trail) m'.bytes → Fails start ws (f m'))
      → ((m' : Machine Pages) → Trail start trail m'.bytes → Fails start ws (g m'))
      → Fails start (w ∷ ws) (
          match_write out f g λ error m'.
            let (errors, m'') = roll_back m' (reverse made) in
            (err (report_failure count error errors), m''))
  match_write-Fails {start} w ws made trail count (ok applied, m') f g spec tells back t here on_f
        on_g =
      Fails-cons start w ws (f m') (on_f m' (one_made t spec))
  match_write-Fails {start} w ws made trail count (ok already_applied, m') f g (same, held) tells
        back t here on_f on_g =
      Fails-cons start w ws (g m') (on_g m' (subst (Trail start trail) (sym same) t))
  match_write-Fails w ws made trail count (err e, m') f g spec tells back t here on_f on_g =
      stop-Fails w ws made trail count e m' back t here spec tells

  apply_writes-Fails :
      {start : Bytes} (ws made trail : List CheckedWrite) (m : Machine Pages)
      (count already_count : ℕ)
      → reverse made ≡ trail
      → Trail start trail m.bytes
      → Cross trail ws
      → AreSeparate ws
      → Fails start ws (apply_writes m ws count already_count made)
  unfolding apply_writes
  apply_writes-Fails [] made trail m count already_count back t cross apart = tt
  apply_writes-Fails {start} (w ∷ ws) made trail m count already_count back t (here, cross)
        (first, apart) =
      match_write-Fails w ws made trail count (apply_write m w) _ _ (apply_write_lem m w)
        (apply_write-TellsTorn m w) back t here
        (λ m' t'.
          apply_writes-Fails ws (made ++ (w ∷ [])) (w ∷ trail) m' (count + 1) already_count
            (reverse-append made (w ∷ []) ∙ ap (◌∷◌ w) back) t'
            (All-zip ws (λ v p q. (p, q)) first cross) apart)
        (λ m' t'. apply_writes-Fails ws made trail m' count (already_count + 1) back t' cross apart)

  plan-Fails :
      (m m' : Machine Pages) (plan : PatchPlan) (e : PatchError)
      → AreSeparate plan.writes
      → apply m plan ≡ (err e, m')
      → IsPartial e ⊎ Leaves m.bytes plan.writes e m'.bytes
  unfolding apply
  plan-Fails m m' plan e apart h =
      subst (Fails m.bytes plan.writes) h
        (apply_writes-Fails plan.writes [] [] m 0 0 refl nothing_made (Cross-nil plan.writes) apart)

  -- Where the ranges of a plan are disjoint and the plan fails, then either memory holds the bytes
  -- from before the plan, or exactly one write of the plan stands in it, or the error is the one
  -- that reports an incomplete rollback.
  pub apply-failed :
      (m m' : Machine Pages) (plan : PatchPlan) (e : PatchError)
      → AreSeparate plan.writes
      → apply m plan ≡ (err e, m')
      → IsPartial e ⊎ ((m'.bytes ≡ m.bytes) ⊎ LeftBehind m.bytes plan.writes m'.bytes)
  apply-failed m m' plan e apart h = elim (plan-Fails m m' plan e apart h) [
    | inl partial ↦ inl partial
    | inr (left, torn) ↦ inr left
  ]

  -- Where the ranges of a plan are disjoint and the plan fails with one of the three errors that come
  -- after a write (Windows refuses to restore the protection or to flush the instruction cache, or
  -- the bytes read back differ), alone and not as a partial write, then the write of the plan at the
  -- address that the error names stands in memory, and no other byte differs from before the plan.
  pub apply-LeftAt :
      (m m' : Machine Pages) (plan : PatchPlan) (e : MemoryError) (a : ℕ)
      → IsLateAt a e
      → AreSeparate plan.writes
      → apply m plan ≡ (err (memory_error e), m')
      → LeftAt a m.bytes plan.writes m'.bytes
  apply-LeftAt m m' plan e a late apart h = elim (plan-Fails m m' plan (memory_error e) apart h) [
    | inl partial ↦ absurd partial
    | inr (left, torn) ↦ torn a late
  ]
