-- ===== src/Patches/Apply.antt =====
-- `PatchPlan::apply`: what a plan that succeeds has written, and what one that fails leaves.
use fc2_systemdetection.Memory.Bytes.{Bytes, peek, poke, poke_same}
use fc2_systemdetection.Memory.Checked.{Checked, WriteState, already_applied, applied}
use fc2_systemdetection.Memory.Os.{Machine, Os}
use fc2_systemdetection.Memory.Writes.{Replaced, WriteSpec, write_checked_lem}
use fc2_systemdetection.Patches.Error.{PatchError, Planned, from_memory}
use fc2_systemdetection.Patches.Plan.{
  CheckedWrite, PatchPlan, apply, apply_write, apply_writes, match_write,
}
use fc2_systemdetection.Prelude.{
  Bool-cases, List, [], ap, arith, err, fun_ext, if◌then◌else◌, inl, inr, length, not, ok, refl,
  subst, sym, ℕ, ◌&&◌, ◌++◌, ◌+◌, ◌==◌, ◌∙◌, ◌∷◌, ◌≡◌, ◌⊎◌,
}

-- The bytes with every replacement of the writes put in, in order.
abbrev pub patched : Bytes → List CheckedWrite → Bytes
patched mem [] = mem
patched mem (w ∷ ws) = patched (poke mem w.address w.replacement) ws

module _ {Pages : Type 0} ⦃os : Os Pages⦄ where
  -- What the result of one write of a plan says of the memory.
  abbrev pub AppliedSpec : Bytes → CheckedWrite → Planned WriteState × Machine Pages → Type 0
  AppliedSpec mem w (ok applied, m') = Replaced mem w.address w.expected w.replacement m'.bytes
  AppliedSpec mem w (ok already_applied, m') =
      (m'.bytes ≡ mem) × (peek mem w.address (length w.replacement) ≡ w.replacement)
  AppliedSpec mem w (err e, m') =
      (m'.bytes ≡ mem) ⊎ Replaced mem w.address w.expected w.replacement m'.bytes

  pub apply_write_lem :
      (m : Machine Pages) (w : CheckedWrite) → AppliedSpec m.bytes w (apply_write m w)
  unfolding apply_write
  apply_write_lem m w = via _ (write_checked_lem m w.address w.expected w.replacement)
    where
      via :
          (out : Checked WriteState × Machine Pages)
          → WriteSpec m w.address w.expected w.replacement out
          → AppliedSpec m.bytes w (from_memory out.0, out.1)
      via (ok applied, m') h = h
      via (ok already_applied, m') (same, held) = (ap (λ n. n.bytes) same, held)
      via (err e, m') h = h

  -- A run that ends in success has put in every replacement.
  abbrev Succeeds : Bytes → List CheckedWrite → Planned WriteState × Machine Pages → Type 0
  Succeeds mem ws (ok s, m') = m'.bytes ≡ patched mem ws
  Succeeds mem ws (err e, m') = Unit

  match_write-Succeeds :
      (mem : Bytes) (w : CheckedWrite) (ws : List CheckedWrite)
      (out : Planned WriteState × Machine Pages)
      (f g : Machine Pages → Planned WriteState × Machine Pages)
      (h : PatchError → Machine Pages → Planned WriteState × Machine Pages)
      → AppliedSpec mem w out
      → ((m' : Machine Pages) → Succeeds m'.bytes ws (f m'))
      → ((m' : Machine Pages) → Succeeds m'.bytes ws (g m'))
      → ((e : PatchError) (m' : Machine Pages) → Succeeds mem (w ∷ ws) (h e m'))
      → Succeeds mem (w ∷ ws) (match_write out f g h)
  match_write-Succeeds mem w ws (ok applied, m') f g h spec on_f on_g on_h =
      subst (λ now. Succeeds now ws (f m')) spec.now (on_f m')
  match_write-Succeeds mem w ws (ok already_applied, m') f g h (same, held) on_f on_g on_h =
      subst (λ now. Succeeds now ws (g m'))
        (same ∙ sym (fun_ext λ c. poke_same mem w.address w.replacement c held)) (on_g m')
  match_write-Succeeds mem w ws (err e, m') f g h spec on_f on_g on_h = on_h e m'

  apply_writes-Succeeds :
      (ws : List CheckedWrite) (m : Machine Pages) (count already_count : ℕ)
      (made : List CheckedWrite)
      → Succeeds m.bytes ws (apply_writes m ws count already_count made)
  unfolding apply_writes
  apply_writes-Succeeds [] m count already_count made = refl
  apply_writes-Succeeds (w ∷ ws) m count already_count made =
      match_write-Succeeds m.bytes w ws (apply_write m w) _ _ _ (apply_write_lem m w)
        (λ m'. apply_writes-Succeeds ws m' (count + 1) already_count (made ++ (w ∷ [])))
        (λ m'. apply_writes-Succeeds ws m' count (already_count + 1) made) (λ e m'. tt)

  -- A plan that is applied, or found applied, leaves memory with every replacement of the plan put
  -- in and no other byte changed.
  pub apply-patched :
      (m m' : Machine Pages) (plan : PatchPlan) (s : WriteState)
      → apply m plan ≡ (ok s, m')
      → m'.bytes ≡ patched m.bytes plan.writes
  unfolding apply
  apply-patched m m' plan s h =
      subst (Succeeds m.bytes plan.writes) h (apply_writes-Succeeds plan.writes m 0 0 [])

  -- A run that says `already_applied` has made no write.
  abbrev MadeNone : Machine Pages → ℕ → Planned WriteState × Machine Pages → Type 0
  MadeNone m count (ok already_applied, m') = (count ≡ 0) × (m'.bytes ≡ m.bytes)
  MadeNone m count (ok applied, m') = Unit
  MadeNone m count (err e, m') = Unit

  MadeNone-end :
      (m : Machine Pages) (count already_count : ℕ)
      → MadeNone m count
          (ok (if count == 0 && not (already_count == 0) then already_applied else applied), m)
  MadeNone-end m count already_count = elim (Bool-cases (count == 0 && not (already_count == 0))) [
    | inl unchanged ↦ rw unchanged (ground arith, refl)
    | inr changed ↦ rw changed tt
  ]

  match_write-MadeNone :
      (m : Machine Pages) (w : CheckedWrite) (count : ℕ) (out : Planned WriteState × Machine Pages)
      (f g : Machine Pages → Planned WriteState × Machine Pages)
      (h : PatchError → Machine Pages → PatchError × Machine Pages)
      → AppliedSpec m.bytes w out
      → ((m' : Machine Pages) → MadeNone m' (count + 1) (f m'))
      → ((m' : Machine Pages) → MadeNone m' count (g m'))
      → MadeNone m count (match_write out f g λ e m'. (err (h e m').0, (h e m').1))
  match_write-MadeNone m w count (ok applied, m') f g h spec on_f on_g = widen (f m') (on_f m')
    where
      widen :
          (out : Planned WriteState × Machine Pages)
          → MadeNone m' (count + 1) out
          → MadeNone m count out
      widen (ok applied, n) x = tt
      widen (ok already_applied, n) x = absurd (omega arith)
      widen (err e, n) x = tt
  match_write-MadeNone m w count (ok already_applied, m') f g h (same, held) on_f on_g =
      widen (g m') (on_g m')
    where
      widen :
          (out : Planned WriteState × Machine Pages) → MadeNone m' count out → MadeNone m count out
      widen (ok applied, n) x = tt
      widen (ok already_applied, n) x = (x.0, x.1 ∙ same)
      widen (err e, n) x = tt
  match_write-MadeNone m w count (err e, m') f g h spec on_f on_g = tt

  apply_writes-MadeNone :
      (ws : List CheckedWrite) (m : Machine Pages) (count already_count : ℕ)
      (made : List CheckedWrite)
      → MadeNone m count (apply_writes m ws count already_count made)
  unfolding apply_writes
  apply_writes-MadeNone [] m count already_count made = MadeNone-end m count already_count
  apply_writes-MadeNone (w ∷ ws) m count already_count made =
      match_write-MadeNone m w count (apply_write m w) _ _ _ (apply_write_lem m w)
        (λ m'. apply_writes-MadeNone ws m' (count + 1) already_count (made ++ (w ∷ [])))
        (λ m'. apply_writes-MadeNone ws m' count (already_count + 1) made)

  -- A plan that reports `already_applied` has changed no byte.
  pub apply-already_applied :
      (m m' : Machine Pages) (plan : PatchPlan)
      → apply m plan ≡ (ok already_applied, m')
      → m'.bytes ≡ m.bytes
  unfolding apply
  apply-already_applied m m' plan h =
      (subst (MadeNone m 0) h (apply_writes-MadeNone plan.writes m 0 0 [])).1
