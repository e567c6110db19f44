-- ===== src/Patches/Total.antt =====
-- Plans of src/patches/mod.rs that succeed, and that are run again.
use fc2_systemdetection.Memory.Bytes.{Bytes, peek, peek-poke, peek-poke_apart, poke}
use fc2_systemdetection.Memory.Checked.{WriteState, already_applied, applied}
use fc2_systemdetection.Memory.Os.{Machine, Os}
use fc2_systemdetection.Memory.Protect.{ProtectLaws, Refuses, refusal_error}
use fc2_systemdetection.Memory.Total.{PagesKept, write_checked_found}
use fc2_systemdetection.Patches.Apply.{apply-patched, patched}
use fc2_systemdetection.Patches.Error.{PatchErrors, Planned, memory_error}
use fc2_systemdetection.Patches.Failure.{AreSeparate}
use fc2_systemdetection.Patches.Plan.{
  CheckedWrite, PatchPlan, apply, apply_write, apply_writes, match_write, report_failure, roll_back,
}
use fc2_systemdetection.Patches.Ready.{
  AreReady, IsReady-kept, Refusal, Step, err_ne_ok, found-IsReady, ready-Step,
}
use fc2_systemdetection.Patches.Rollback.{ApartFrom}
use fc2_systemdetection.Patches.Run.{run}
use fc2_systemdetection.Prelude.{
  All, All-map, All-zip, List, Member, [], ap, arith, err, inl, inr, length, ok, refl, reverse,
  subst, sym, ℕ, ◌++◌, ◌+◌, ◌<◌, ◌∙◌, ◌∷◌, ◌≡◌, ◌≢◌, ◌⊎◌,
}

patched_apart :
    (mem : Bytes) (a n : ℕ) (ws : List CheckedWrite)
    → All (ApartFrom a n) ws
    → peek (patched mem ws) a n ≡ peek mem a n
patched_apart mem a n [] h = refl
patched_apart mem a n (w ∷ ws) (apart, h) =
    patched_apart (poke mem w.address w.replacement) a n ws h
    ∙ peek-poke_apart mem a n w.address w.replacement (λ c i j. apart c j i)

-- After all writes each range holds its replacement.
patched_present :
    (mem : Bytes) (ws : List CheckedWrite)
    → AreSeparate ws
    → All (λ w. peek (patched mem ws) w.address (length w.replacement) ≡ w.replacement) ws
patched_present mem [] h = tt
patched_present mem (w ∷ ws) (apart, h) =
    let mem' = poke mem w.address w.replacement in
    (
      patched_apart mem' w.address (length w.replacement) ws
            (All-map ws (λ v p. λ c i j. p c j i) apart)
          ∙ peek-poke mem w.address w.replacement,
      patched_present mem' ws h,
    )

nonempty : (ws : List CheckedWrite) → ws ≢ [] → 0 < 0 + length ws
nonempty [] h = absurd (h refl)
nonempty (w ∷ ws) h = omega arith

module _ {Pages : Type 0} ⦃os : Os Pages⦄ where
  -- A run of a plan whose writes are ready ends well, and keeps the pages.
  record Run (m : Machine Pages) (out : Planned WriteState × Machine Pages) : Type 0 where
    state : WriteState
    succeeded : out.0 ≡ ok state
    kept : PagesKept os m.pages out.1.pages

  -- Windows has refused a call of one of the writes, and the plan fails with that refusal, alone
  -- or at the head of the errors of the rollback. The pages before that write keep what the plan
  -- was given.
  pub record IsStopped (pages : Pages) (ws : List CheckedWrite)
      (out : Planned WriteState × Machine Pages) : Type 0 where
    pub write : CheckedWrite
    pub planned : Member write ws
    pub before : Pages
    pub kept : PagesKept os pages before
    pub refusal : Refuses os before write.address (length write.replacement)
    pub count : ℕ
    pub errors : PatchErrors
    pub reported :
        out.0
        ≡ err (
            report_failure count
              (memory_error
                (refusal_error os before write.address (length write.replacement) refusal))
              errors)

  abbrev Ends : Machine Pages → List CheckedWrite → Planned WriteState × Machine Pages → Type 0
  Ends m ws out = Run m out ⊎ IsStopped m.pages ws out

  -- What holds of the rest of a run holds of the run with the write before it.
  Ends-cons :
      (m : Machine Pages) (w : CheckedWrite) (ws : List CheckedWrite)
      (out rest : Planned WriteState × Machine Pages)
      → Step m w out
      → Ends out.1 ws rest
      → Ends m (w ∷ ws) rest
  Ends-cons m w ws out rest step (inl run) = inl (record {
    state = run.state;
    succeeded = run.succeeded;
    kept = λ b k several page one. run.kept b k several page (step.kept b k several page one);
  })
  Ends-cons m w ws out rest step (inr stop) = inr (record {
    write = stop.write;
    planned = inr stop.planned;
    before = stop.before;
    kept = λ b k several page one. stop.kept b k several page (step.kept b k several page one);
    refusal = stop.refusal;
    count = stop.count;
    errors = stop.errors;
    reported = stop.reported;
  })

  match_write-Ends :
      (m : Machine Pages) (w : CheckedWrite) (ws made : List CheckedWrite) (count : ℕ)
      (out : Planned WriteState × Machine Pages)
      (f g : Machine Pages → Planned WriteState × Machine Pages)
      → Step m w out ⊎ Refusal m w out
      → (Step m w out → Ends out.1 ws (f out.1))
      → (Step m w out → Ends out.1 ws (g out.1))
      → Ends m (w ∷ ws) (
          match_write out f g λ error m'.
            let (errors, m'') = roll_back m' (reverse made) in
            (err (report_failure count error errors), m''))
  match_write-Ends m w ws made count (ok applied, m') f g (inl step) on_f on_g =
      Ends-cons m w ws (ok applied, m') (f m') step (on_f step)
  match_write-Ends m w ws made count (ok already_applied, m') f g (inl step) on_f on_g =
      Ends-cons m w ws (ok already_applied, m') (g m') step (on_g step)
  match_write-Ends m w ws made count (err e, m') f g (inl step) on_f on_g =
      absurd (err_ne_ok step.succeeded)
  match_write-Ends m w ws made count (ok s, m') f g (inr refused) on_f on_g =
      absurd (err_ne_ok (sym refused.reported))
  match_write-Ends m w ws made count (err e, m') f g (inr refused) on_f on_g = inr (record {
    write = w;
    planned = inl refl;
    before = m.pages;
    kept = λ b k several page one. one;
    refusal = refused.refusal;
    count = count;
    errors = (roll_back m' (reverse made)).0;
    reported = cc (refused.reported);
  })

  -- The writes behind a ready one, on disjoint ranges, are ready after it.
  rest_ready :
      (m : Machine Pages) (w : CheckedWrite) (ws : List CheckedWrite)
      (out : Planned WriteState × Machine Pages)
      → Step m w out
      → All (λ v. ApartFrom v.address (length v.replacement) w) ws
      → AreReady os m ws
      → AreReady os out.1 ws
  rest_ready m w ws out step apart all_ready =
      All-zip ws
        (λ v p r.
          IsReady-kept m out.1 v step.kept
            (rw step.bytes_are (
              peek-poke_apart m.bytes v.address (length v.replacement) w.address w.replacement
                (λ c i j. p c j i)))
            r)
        apart all_ready

module _ {Pages : Type 0} ⦃os : Os Pages⦄ (laws : ProtectLaws os) where
  apply_writes-Ends :
      (ws : List CheckedWrite) (m : Machine Pages) (count already_count : ℕ)
      (made : List CheckedWrite)
      → AreReady os m ws
      → AreSeparate ws
      → Ends m ws (apply_writes m ws count already_count made)
  unfolding apply_writes
  apply_writes-Ends [] m count already_count made all_ready apart =
      inl (record { state = _; succeeded = refl; kept = λ b k several page one. one })
  apply_writes-Ends (w ∷ ws) m count already_count made (r, all_ready) (apart, rest) =
      let out = apply_write m w in
      match_write-Ends m w ws made count out _ _ (ready-Step laws m w r)
        (λ step.
          apply_writes-Ends ws out.1 (count + 1) already_count (made ++ (w ∷ []))
            (rest_ready m w ws out step apart all_ready) rest)
        (λ step.
          apply_writes-Ends ws out.1 count (already_count + 1) made
            (rest_ready m w ws out step apart all_ready) rest)

  -- A run over writes that are all found applied.
  apply_writes_found :
      (ws : List CheckedWrite) (m : Machine Pages) (already_count : ℕ) (made : List CheckedWrite)
      → AreReady os m ws
      → All (λ w. peek m.bytes w.address (length w.replacement) ≡ w.replacement) ws
      → 0 < already_count + length ws
      → apply_writes m ws 0 already_count made ≡ (ok already_applied, m)
  unfolding apply_writes apply_write
  apply_writes_found [] m already_count made all_ready present several = ground arith
  apply_writes_found (w ∷ ws) m already_count made (r, all_ready) (held, present) several =
      rw (write_checked_found laws m w.address w.expected w.replacement r held) (
        apply_writes_found ws m (already_count + 1) made all_ready present (omega (arith, several)))

  -- Where `VirtualQuery` and `VirtualProtect` behave as documented, a plan that is not empty, and
  -- whose writes are ready and on disjoint ranges, succeeds: it leaves memory with every replacement
  -- put in and no other byte changed, and when it is applied again it reports `already_applied` and
  -- changes nothing. Else Windows has refused a call that one of its writes makes, to change the
  -- protection of the pages, to put it back or to flush them, and the plan fails with the error of
  -- that refusal, alone or in the report of a rollback that is incomplete.
  pub apply_complete :
      (m : Machine Pages) (plan : PatchPlan)
      → plan.writes ≢ []
      → AreReady os m plan.writes
      → AreSeparate plan.writes
      → ((s : WriteState) × (m' : Machine Pages) × (apply m plan ≡ (ok s, m'))
          × (m'.bytes ≡ patched m.bytes plan.writes)
          × (apply m' plan ≡ (ok already_applied, m')))
        ⊎ IsStopped m.pages plan.writes (apply m plan)
  unfolding apply
  apply_complete m plan several all_ready apart =
      let out = apply_writes m plan.writes 0 0 [] in
      elim (apply_writes-Ends plan.writes m 0 0 [] all_ready apart) [
        | inr stop ↦ inr stop
        | inl done ↦
            let whole : out ≡ (ok done.state, out.1) = ap (λ r. (r, out.1)) done.succeeded in
            let bytes = apply-patched m out.1 plan done.state (unfold apply in whole) in
            let present =
              subst
                (λ mem.
                  All (λ w. peek mem w.address (length w.replacement) ≡ w.replacement) plan.writes)
                (sym bytes) (patched_present m.bytes plan.writes apart) in
            let ready_again =
              All-zip plan.writes (λ w held r. found-IsReady m out.1 w done.kept held r) present
                all_ready in
            inl (
              done.state,
              out.1,
              whole,
              bytes,
              apply_writes_found plan.writes out.1 0 [] ready_again present
                  (nonempty plan.writes several),
            )
      ]
