-- ===== src/Patches/Frame.antt =====
-- The bytes outside the writes of a plan of src/patches/mod.rs.
use mathlib.Core.List.{reverse_aux}
use fc2_systemdetection.Memory.Bytes.{Bytes, InRange, poke_outside, range_cases}
use fc2_systemdetection.Memory.Checked.{
  Checked, WriteState, already_applied, applied, write_checked,
}
use fc2_systemdetection.Memory.Os.{Machine, Os}
use fc2_systemdetection.Memory.Writes.{Replaced, WriteSpec, write_checked_lem}
use fc2_systemdetection.Patches.Error.{PatchError, Planned}
use fc2_systemdetection.Patches.Plan.{
  CheckedWrite, PatchPlan, apply, apply_write, apply_writes, match_write, roll_back,
  roll_back_write,
}
use fc2_systemdetection.Patches.Run.{
  PreparedPatch, apply_all, apply_prepared, disabled_patch, failed_patch, ready,
}
use fc2_systemdetection.Prelude.{
  All, All-append, List, [], ap, err, inl, inr, length, ok, refl, reverse, ℕ, ◌++◌, ◌+◌, ◌∙◌, ◌∷◌,
  ◌≡◌,
}

-- The address is not in the range of the write.
abbrev pub IsOutside : ℕ → CheckedWrite → Type 0
IsOutside b w = ¬ InRange w.address (length w.replacement) b

Replaced-frame :
    {mem mem' : Bytes} {a : ℕ} {e r : List ℕ} (b : ℕ)
    → (length e ≡ length r → ¬ InRange a (length r) b)
    → Replaced mem a e r mem'
    → mem' b ≡ mem b
Replaced-frame {mem} {mem'} {a} {e} {r} b out w = elim (range_cases a (length r) b) [
  | inl inside ↦ absurd (out w.lengths inside)
  | inr outside ↦ ap (λ f. f b) w.now ∙ poke_outside mem a r b outside
]

All-reverse_aux {ℓ κ} :
    {A : Type ℓ} (P : A → Type κ) (xs ys : List A) → All P xs → All P ys → All P (reverse_aux xs ys)
All-reverse_aux P [] ys h g = g
All-reverse_aux P (x ∷ xs) ys (p, h) g = All-reverse_aux P xs (x ∷ ys) h (p, g)

-- No write of a prepared patch has the address in its range.
abbrev pub Spares : ℕ → PreparedPatch → Type 0
Spares b (ready name plan) = All (IsOutside b) plan.writes
Spares b (disabled_patch name) = Unit
Spares b (failed_patch name e) = Unit

module _ {Pages : Type 0} ⦃os : Os Pages⦄ (b : ℕ) where
  write_checked-frame :
      (m : Machine Pages) (a : ℕ) (e r : List ℕ)
      → (length e ≡ length r → ¬ InRange a (length r) b)
      → (write_checked m a e r).1.bytes b ≡ m.bytes b
  write_checked-frame m a e r out = of _ (write_checked_lem m a e r)
    where
      of :
          (result : Checked WriteState × Machine Pages)
          → WriteSpec m a e r result
          → result.1.bytes b ≡ m.bytes b
      of (ok applied, m') w = Replaced-frame b out w
      of (ok already_applied, m') w = ap (λ n. n.bytes b) w.0
      of (err x, m') (inl same) = ap (λ f. f b) same
      of (err x, m') (inr w) = Replaced-frame b out w

  roll_back-frame :
      (ws : List CheckedWrite) (m : Machine Pages)
      → All (IsOutside b) ws
      → (roll_back m ws).1.bytes b ≡ m.bytes b
  unfolding roll_back roll_back_write
  roll_back-frame [] m out = refl
  roll_back-frame (w ∷ ws) m (here, out) =
      roll_back-frame ws _ out
      ∙ write_checked-frame m w.address w.replacement w.expected (λ same. rw (← same) here)

  match_write-frame :
      (m : Machine Pages) (r : Planned WriteState × Machine Pages)
      (f g : Machine Pages → Planned WriteState × Machine Pages)
      (h : PatchError → Machine Pages → Planned WriteState × Machine Pages)
      → r.1.bytes b ≡ m.bytes b
      → ((m' : Machine Pages) → (f m').1.bytes b ≡ m'.bytes b)
      → ((m' : Machine Pages) → (g m').1.bytes b ≡ m'.bytes b)
      → ((e : PatchError) (m' : Machine Pages) → (h e m').1.bytes b ≡ m'.bytes b)
      → (match_write r f g h).1.bytes b ≡ m.bytes b
  match_write-frame m (ok applied, m') f g h same on_f on_g on_h = on_f m' ∙ same
  match_write-frame m (ok already_applied, m') f g h same on_f on_g on_h = on_g m' ∙ same
  match_write-frame m (err e, m') f g h same on_f on_g on_h = on_h e m' ∙ same

  apply_writes-frame :
      (ws made : List CheckedWrite) (m : Machine Pages) (count already_count : ℕ)
      → All (IsOutside b) ws
      → All (IsOutside b) made
      → (apply_writes m ws count already_count made).1.bytes b ≡ m.bytes b
  unfolding apply_writes apply_write
  apply_writes-frame [] made m count already_count out before = refl
  apply_writes-frame (w ∷ ws) made m count already_count (here, out) before =
      match_write-frame m (apply_write m w) _ _ _
        (write_checked-frame m w.address w.expected w.replacement (λ same. here))
        (λ m'.
          apply_writes-frame ws (made ++ (w ∷ [])) m' (count + 1) already_count out
            (All-append (IsOutside b) made before here))
        (λ m'. apply_writes-frame ws made m' count (already_count + 1) out before)
        (λ e m'.
          roll_back-frame (reverse made) m' (All-reverse_aux (IsOutside b) made [] before tt))

  -- Whatever `PatchPlan::apply` returns, each byte outside the ranges of the plan's writes is as
  -- it was.
  pub apply-frame :
      (m : Machine Pages) (plan : PatchPlan)
      → All (IsOutside b) plan.writes
      → (apply m plan).1.bytes b ≡ m.bytes b
  unfolding apply
  apply-frame m plan out = apply_writes-frame plan.writes [] m 0 0 out tt

  apply_prepared-frame :
      (m : Machine Pages) (p : PreparedPatch)
      → Spares b p
      → (apply_prepared m p).1.bytes b ≡ m.bytes b
  unfolding apply_prepared
  apply_prepared-frame m (disabled_patch name) out = refl
  apply_prepared-frame m (failed_patch name e) out = refl
  apply_prepared-frame m (ready name plan) out = apply-frame m plan out

  pub apply_all-frame :
      (ps : List PreparedPatch) (m : Machine Pages)
      → All (Spares b) ps
      → (apply_all m ps).1.bytes b ≡ m.bytes b
  unfolding apply_all
  apply_all-frame [] m out = refl
  apply_all-frame (p ∷ ps) m (here, out) =
      apply_all-frame ps (apply_prepared m p).1 out ∙ apply_prepared-frame m p here
