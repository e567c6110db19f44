-- ===== src/Exports/Process.antt =====
-- The exports of src/lib.rs with `initialize` of src/patches/mod.rs behind them.
use fc2_systemdetection.Exports.Entry.{
  Call, Exports, Services, call_dll_main, call_get_hardware, call_get_score, dll_main,
  ensure_runtime_initialized, get_hardware_instance, get_score_instance, hardware_or_init, run_call,
  run_calls, score_or_init,
}
use fc2_systemdetection.Memory.Os.{Machine, Os}
use fc2_systemdetection.Patches.Containment.{IsPatchable, run-contained}
use fc2_systemdetection.Patches.Initialize.{Effect, Files, initialize, load_patch_config}
use fc2_systemdetection.Patches.Run.{Modules, run}
use fc2_systemdetection.Prelude.{
  Bool-cases, List, Option-cases, [], ap, false, inl, inr, ok, refl, some, ℕ, ◌++◌, ◌==◌, ◌∙◌, ◌∷◌,
  ◌≡◌,
}
use fc2_systemdetection.Scan.Image.{ModuleImage, from_module}
use fc2_systemdetection.Scan.Range.{Portex}

-- The process with what its calls have left outside, and `Rest` for what the hardware and score
-- objects need.
pub record Process (Pages Rest : Type 0) : Type 0 where
  pub machine : Machine Pages
  pub effects : List Effect
  pub rest : Rest

-- `Box::new(GearHardware::new())` and `Box::new(GearScore::new())`, and the constant of Windows.
pub record Objects (Rest : Type 0) : Type 0 where
  pub attach : ℕ
  pub make_hardware : Rest → ℕ × Rest
  pub make_score : Rest → ℕ × Rest

abbrev make : {Pages Rest : Type 0} → ℕ × Rest → Process Pages Rest → ℕ × Process Pages Rest
make (address, rest) p = (address, record p { rest = rest })

-- `files` are the files as the DLL with a module handle finds them.
unfoldable pub process_services :
    {Pages Handle PortexError Rest : Type 0}
    → ⦃os : Os Pages⦄ → (ℕ → Files)
    → Modules Pages Handle
    → Portex PortexError
    → Objects Rest
    → Services (Process Pages Rest)
unfolding initialize
process_services files modules portex objects = record {
  dll_process_attach = objects.attach;
  initialize = λ p self_module.
      let (report, effects, machine) = initialize (files self_module) modules portex p.machine in
      record p { machine = machine; effects = p.effects ++ effects };
  new_hardware = λ p. make (objects.make_hardware p.rest) p;
  new_score = λ p. make (objects.make_score p.rest) p;
}

module _ {Pages Handle PortexError Rest : Type 0} ⦃os : Os Pages⦄ (files : ℕ → Files)
    (modules : Modules Pages Handle) (portex : Portex PortexError) (objects : Objects Rest)
    (m : Machine Pages) (b : ℕ)
    (out : (dunia : Handle) (image : ModuleImage)
      → modules.handle m.pages ≡ some dunia
      → from_module portex m (modules.information m.pages dunia) ≡ ok image
      → ¬ IsPatchable image b) where
  -- Until the runtime is initialized the process is as it was; the byte stays in any case.
  record IsConfined (s : Exports (Process Pages Rest)) : Type 0 where
    clean : s.runtime_initialized ≡ false → s.world.machine ≡ m
    kept : s.world.machine.bytes b ≡ m.bytes b

  instance abbrev services : Services (Process Pages Rest)
  services = process_services files modules portex objects

  ensure-IsConfined :
      (s : Exports (Process Pages Rest)) → IsConfined s → IsConfined (ensure_runtime_initialized s)
  unfolding ensure_runtime_initialized process_services initialize
  ensure-IsConfined s c = elim (Bool-cases s.runtime_initialized) [
    | inl done ↦ rw (done, ensure_runtime_initialized) (record { clean = λ h. cc; kept = c.kept })
    | inr first ↦
        rw (first, ensure_runtime_initialized)
          (record {
            clean = λ h. cc;
            kept =
                ap
                  (λ p.
                    (run modules portex p (load_patch_config (files s.self_module)).0).1.bytes b)
                  (c.clean first)
                ∙ run-contained modules portex m (load_patch_config (files s.self_module)).0 b out;
          })
  ]

  hardware-IsConfined :
      (s : Exports (Process Pages Rest)) → IsConfined s → IsConfined (hardware_or_init s).1
  unfolding hardware_or_init process_services
  hardware-IsConfined s c = elim (Option-cases s.gear_hardware) [
    | inl fresh ↦ rw (fresh, hardware_or_init) (record { clean = c.clean; kept = c.kept })
    | inr (p, found) ↦ rw (found, hardware_or_init) c
  ]

  score-IsConfined :
      (s : Exports (Process Pages Rest)) → IsConfined s → IsConfined (score_or_init s).1
  unfolding score_or_init process_services
  score-IsConfined s c = elim (Option-cases s.gear_score) [
    | inl fresh ↦ rw (fresh, score_or_init) (record { clean = c.clean; kept = c.kept })
    | inr (p, found) ↦ rw (found, score_or_init) c
  ]

  run_call-IsConfined :
      (call : Call) (s : Exports (Process Pages Rest))
      → IsConfined s
      → IsConfined (run_call call s).1
  unfolding run_call dll_main get_hardware_instance get_score_instance
  run_call-IsConfined (call_dll_main hinst_dll fdw_reason) s c =
      elim (Bool-cases (fdw_reason == services.dll_process_attach)) [
        | inl attach ↦ rw (attach, run_call, dll_main) (record { clean = c.clean; kept = c.kept })
        | inr other ↦ rw (other, run_call, dll_main) c
      ]
  run_call-IsConfined call_get_hardware s c =
      hardware-IsConfined (ensure_runtime_initialized s) (ensure-IsConfined s c)
  run_call-IsConfined call_get_score s c =
      score-IsConfined (ensure_runtime_initialized s) (ensure-IsConfined s c)

  run_calls-IsConfined :
      (calls : List Call) (s : Exports (Process Pages Rest))
      → IsConfined s
      → IsConfined (run_calls calls s)
  unfolding run_calls
  run_calls-IsConfined [] s c = c
  run_calls-IsConfined (call ∷ calls) s c =
      run_calls-IsConfined calls (run_call call s).1 (run_call-IsConfined call s c)

-- Whatever exports the game calls, and how often, a byte stays as it was before the runtime is
-- initialized if it is in no loaded section of code or of read-only data of the image that is then
-- taken of Dunia.dll.
pub run_calls-contained :
    {Pages Handle PortexError Rest : Type 0} ⦃os : Os Pages⦄ (files : ℕ → Files)
    (modules : Modules Pages Handle) (portex : Portex PortexError) (objects : Objects Rest)
    (calls : List Call) (s : Exports (Process Pages Rest)) (b : ℕ)
    → s.runtime_initialized ≡ false
    → ((dunia : Handle) (image : ModuleImage)
        → modules.handle s.world.machine.pages ≡ some dunia
        → from_module portex s.world.machine (modules.information s.world.machine.pages dunia)
          ≡ ok image
        → ¬ IsPatchable image b)
    → (run_calls ⦃services = process_services files modules portex objects⦄ calls
          s).world.machine.bytes
        b
      ≡ s.world.machine.bytes b
run_calls-contained files modules portex objects calls s b first out =
    (run_calls-IsConfined files modules portex objects s.world.machine b out calls s
      (record { clean = λ h. refl; kept = refl })).kept
