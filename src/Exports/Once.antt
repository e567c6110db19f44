-- ===== src/Exports/Once.antt =====
-- Repeated calls of the exports of src/lib.rs.
use fc2_systemdetection.Exports.Entry.{
  Call, Exports, Services, call_dll_main, call_get_hardware, call_get_score, dll_main,
  ensure_runtime_initialized, get_hardware_instance, get_score_instance, hardware_or_init, run_call,
  run_calls, score_or_init,
}
use fc2_systemdetection.Prelude.{List, [], arith, refl, some, true, ℕ, ◌∙◌, ◌∷◌, ◌≡◌}

-- What later calls keep of the statics: an object that is made, and an initialization that is done.
pub record Keeps {World : Type 0} (s s' : Exports World) : Type 0 where
  pub hardware : (p : ℕ) → s.gear_hardware ≡ some p → s'.gear_hardware ≡ some p
  pub score : (p : ℕ) → s.gear_score ≡ some p → s'.gear_score ≡ some p
  pub initialized : s.runtime_initialized ≡ true → s'.runtime_initialized ≡ true

-- Everything is made: nothing is left that a call could do to the world.
pub record IsSettled {World : Type 0} (s : Exports World) : Type 0 where
  pub initialized : s.runtime_initialized ≡ true
  pub hardware : ℕ
  pub has_hardware : s.gear_hardware ≡ some hardware
  pub score : ℕ
  pub has_score : s.gear_score ≡ some score

Keeps-trans : {World : Type 0} {s s' s'' : Exports World} → Keeps s s' → Keeps s' s'' → Keeps s s''
Keeps-trans a b = record {
  hardware = λ p h. b.hardware p (a.hardware p h);
  score = λ p h. b.score p (a.score p h);
  initialized = λ h. b.initialized (a.initialized h);
}

module _ {World : Type 0} ⦃services : Services World⦄ where
  ensure-Keeps : (s : Exports World) → Keeps s (ensure_runtime_initialized s)
  unfolding ensure_runtime_initialized
  ensure-Keeps s = record {
    hardware = λ p h. ground arith;
    score = λ p h. ground arith;
    initialized = λ h. ground arith;
  }

  hardware-Keeps : (s : Exports World) → Keeps s (hardware_or_init s).1
  unfolding hardware_or_init
  hardware-Keeps s = record {
    hardware = λ p h. ground arith;
    score = λ p h. ground arith;
    initialized = λ h. ground arith;
  }

  score-Keeps : (s : Exports World) → Keeps s (score_or_init s).1
  unfolding score_or_init
  score-Keeps s = record {
    hardware = λ p h. ground arith;
    score = λ p h. ground arith;
    initialized = λ h. ground arith;
  }

  run_call-Keeps : (call : Call) (s : Exports World) → Keeps s (run_call call s).1
  unfolding run_call dll_main get_hardware_instance get_score_instance
  run_call-Keeps (call_dll_main hinst_dll fdw_reason) s = record {
    hardware = λ p h. ground arith;
    score = λ p h. ground arith;
    initialized = λ h. ground arith;
  }
  run_call-Keeps call_get_hardware s = Keeps-trans (ensure-Keeps s) (hardware-Keeps _)
  run_call-Keeps call_get_score s = Keeps-trans (ensure-Keeps s) (score-Keeps _)

  run_calls-Keeps : (calls : List Call) (s : Exports World) → Keeps s (run_calls calls s)
  unfolding run_calls
  run_calls-Keeps [] s = record { hardware = λ p h. h; score = λ p h. h; initialized = λ h. h }
  run_calls-Keeps (call ∷ calls) s = Keeps-trans (run_call-Keeps call s) (run_calls-Keeps calls _)

  or_init_made :
      (s : Exports World) → (hardware_or_init s).1.gear_hardware ≡ some (hardware_or_init s).0
  unfolding hardware_or_init
  or_init_made s = ground arith

  or_init_found :
      (s : Exports World) (p : ℕ) → s.gear_hardware ≡ some p → (hardware_or_init s).0 ≡ p
  unfolding hardware_or_init
  or_init_found s p h = rw h refl

  hardware_made :
      (s : Exports World)
      → (get_hardware_instance s).1.gear_hardware ≡ some (get_hardware_instance s).0
  unfolding get_hardware_instance
  hardware_made s = or_init_made (ensure_runtime_initialized s)

  found_again :
      (s : Exports World) (p : ℕ) → s.gear_hardware ≡ some p → (get_hardware_instance s).0 ≡ p
  unfolding get_hardware_instance
  found_again s p h = or_init_found (ensure_runtime_initialized s) p ((ensure-Keeps s).hardware p h)

  -- Whatever calls come between, `GetHardwareInstance` returns the object that it returned first.
  pub get_hardware_instance_stable :
      (s : Exports World) (calls : List Call)
      → (get_hardware_instance (run_calls calls (get_hardware_instance s).1)).0
        ≡ (get_hardware_instance s).0
  get_hardware_instance_stable s calls =
      found_again _ _
        ((run_calls-Keeps calls (get_hardware_instance s).1).hardware _ (hardware_made s))

  settled_call :
      (call : Call) (s : Exports World) → IsSettled s → (run_call call s).1.world ≡ s.world
  unfolding run_call dll_main get_hardware_instance get_score_instance hardware_or_init
      score_or_init ensure_runtime_initialized
  settled_call (call_dll_main hinst_dll fdw_reason) s h = ground arith
  settled_call call_get_hardware s h = ground (arith, h.initialized, h.has_hardware)
  settled_call call_get_score s h = ground (arith, h.initialized, h.has_score)

  IsSettled-kept : {s s' : Exports World} → Keeps s s' → IsSettled s → IsSettled s'
  IsSettled-kept k h = record {
    initialized = k.initialized h.initialized;
    hardware = h.hardware;
    has_hardware = k.hardware h.hardware h.has_hardware;
    score = h.score;
    has_score = k.score h.score h.has_score;
  }

  -- Once the runtime is initialized and both objects exist, no call initializes again or makes
  -- another object: the rest of the world stays as it is.
  pub run_calls_settled :
      (calls : List Call) (s : Exports World) → IsSettled s → (run_calls calls s).world ≡ s.world
  unfolding run_calls
  run_calls_settled [] s h = refl
  run_calls_settled (call ∷ calls) s h =
      run_calls_settled calls _ (IsSettled-kept (run_call-Keeps call s) h) ∙ settled_call call s h
