-- ===== src/Patches/Plan.antt =====
-- `CheckedWrite` and `PatchPlan` of src/patches/mod.rs, with the rollback of a plan that fails.
use fc2_systemdetection.Memory.Checked.{
  WriteState, already_applied, applied, validate_bytes, write_checked,
}
use fc2_systemdetection.Memory.Os.{Machine, Os}
use fc2_systemdetection.Patches.Error.{
  PatchError, PatchErrors, Planned, add_error, empty_plan, from_memory, no_errors, partial_write,
}
use fc2_systemdetection.Prelude.{
  List, [], err, if◌then◌else◌, is_empty, not, ok, reverse, ℕ, ◌&&◌, ◌++◌, ◌+◌, ◌==◌, ◌>>=◌, ◌∷◌,
}

pub record CheckedWrite : Type 0 where
  pub address : ℕ
  pub expected : List ℕ
  pub replacement : List ℕ

pub record PatchPlan : Type 0 where
  pub writes : List CheckedWrite

-- `PatchPlan::new`
unfoldable pub new : List CheckedWrite → Planned PatchPlan
new writes = if is_empty writes then err empty_plan else ok (record { writes = writes })

-- The errors of a list of rollbacks, `filter_map(|w| w.rollback().err())`.
abbrev pub push_error : Planned WriteState → PatchErrors → PatchErrors
push_error (ok s) errors = errors
push_error (err e) errors = add_error e errors

-- Which error a failed plan returns, by the errors of its rollbacks.
abbrev pub report_failure : ℕ → PatchError → PatchErrors → PatchError
report_failure count error no_errors = error
report_failure count error (add_error e es) = partial_write count error (add_error e es)

module _ {Pages : Type 0} ⦃os : Os Pages⦄ where
  -- `CheckedWrite::validated`
  unfoldable pub validated : Machine Pages → ℕ → List ℕ → List ℕ → Planned CheckedWrite
  validated m address expected replacement =
      from_memory (validate_bytes m address expected replacement) >>= λ state.
      ok (record { address = address; expected = expected; replacement = replacement })

  -- `PatchPlan::single`
  unfoldable pub single : Machine Pages → ℕ → List ℕ → List ℕ → Planned PatchPlan
  unfolding new
  single m address expected replacement =
      validated m address expected replacement >>= λ write. new (write ∷ [])

  -- `CheckedWrite::apply` and `CheckedWrite::rollback`
  unfoldable pub apply_write : Machine Pages → CheckedWrite → Planned WriteState × Machine Pages
  apply_write m w =
      let (result, m') = write_checked m w.address w.expected w.replacement in
      (from_memory result, m')

  unfoldable pub roll_back_write : Machine Pages → CheckedWrite → Planned WriteState × Machine Pages
  roll_back_write m w =
      let (result, m') = write_checked m w.address w.replacement w.expected in
      (from_memory result, m')

  unfoldable pub roll_back : Machine Pages → List CheckedWrite → PatchErrors × Machine Pages
  unfolding roll_back_write
  roll_back m [] = (no_errors, m)
  roll_back m (w ∷ ws) =
      let (result, m') = roll_back_write m w in
      let (errors, m'') = roll_back m' ws in (push_error result errors, m'')

  -- The three arms of the `match` in the loop of `PatchPlan::apply`.
  abbrev pub match_write {ℓ} :
      {A : Type ℓ}
      → Planned WriteState × Machine Pages
      → (Machine Pages → A)
      → (Machine Pages → A)
      → (PatchError → Machine Pages → A)
      → A
  match_write (ok applied, m) on_applied on_already on_error = on_applied m
  match_write (ok already_applied, m) on_applied on_already on_error = on_already m
  match_write (err e, m) on_applied on_already on_error = on_error e m

  -- The loop, with the counters and the writes that have been made; the error arm rolls these back
  -- in reverse order.
  unfoldable pub apply_writes :
      Machine Pages
      → List CheckedWrite
      → ℕ
      → ℕ
      → List CheckedWrite
      → Planned WriteState × Machine Pages
  unfolding apply_write roll_back
  apply_writes m [] count already_count made =
      (ok (if count == 0 && not (already_count == 0) then already_applied else applied), m)
  apply_writes m (w ∷ ws) count already_count made =
      match_write (apply_write m w)
        (λ m'. apply_writes m' ws (count + 1) already_count (made ++ (w ∷ [])))
        (λ m'. apply_writes m' ws count (already_count + 1) made)
        (λ error m'.
          let (errors, m'') = roll_back m' (reverse made) in
          (err (report_failure count error errors), m''))

  -- `PatchPlan::apply`
  unfoldable pub apply : Machine Pages → PatchPlan → Planned WriteState × Machine Pages
  unfolding apply_writes
  apply m plan = apply_writes m plan.writes 0 0 []
