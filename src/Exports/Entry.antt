-- ===== src/Exports/Entry.antt =====
-- The statics of src/lib.rs and its exported functions, called one after another. The console of a
-- debug build is not modelled.
use fc2_systemdetection.Prelude.{
  Bool, List, Option, [], if◌then◌else◌, none, some, true, ℕ, ◌==◌, ◌∷◌,
}

-- What the exports call. `World` is all that lies outside the statics of lib.rs.
pub record Services (World : Type 0) : Type 0 where
  -- The constant DLL_PROCESS_ATTACH of the crate `windows-sys`.
  pub dll_process_attach : ℕ
  -- `patches::initialize` of the module.
  pub initialize : World → ℕ → World
  -- `Box::new(GearHardware::new())` and `Box::new(GearScore::new())`: the address of the object.
  pub new_hardware : World → ℕ × World
  pub new_score : World → ℕ × World

-- The statics. A `OnceLock` of a box is the address of the box, once it is set.
pub record Exports (World : Type 0) : Type 0 where
  pub self_module : ℕ
  pub runtime_initialized : Bool
  pub gear_hardware : Option ℕ
  pub gear_score : Option ℕ
  pub world : World

-- A call from outside.
pub data Call : Type 0 where
  call_dll_main : ℕ → ℕ → Call
  call_get_hardware call_get_score : Call

module _ {World : Type 0} ⦃services : Services World⦄ where
  -- `DllMain`, which returns TRUE
  unfoldable pub dll_main : ℕ → ℕ → Exports World → ℕ × Exports World
  dll_main hinst_dll fdw_reason s = (
    1,
    if fdw_reason == services.dll_process_attach then record s { self_module = hinst_dll } else s,
  )

  unfoldable pub ensure_runtime_initialized : Exports World → Exports World
  ensure_runtime_initialized s = if s.runtime_initialized then s else record s {
    runtime_initialized = true;
    world = services.initialize s.world s.self_module;
  }

  -- `GEAR_HARDWARE.get_or_init(..)`
  unfoldable pub hardware_or_init : Exports World → ℕ × Exports World
  hardware_or_init s = elim s.gear_hardware [
    | some hardware ↦ (hardware, s)
    | none ↦
        let (hardware, world) = services.new_hardware s.world in
        (hardware, record s { gear_hardware = some hardware; world = world })
  ]

  -- `GEAR_SCORE.get_or_init(..)`
  unfoldable pub score_or_init : Exports World → ℕ × Exports World
  score_or_init s = elim s.gear_score [
    | some score ↦ (score, s)
    | none ↦
        let (score, world) = services.new_score s.world in
        (score, record s { gear_score = some score; world = world })
  ]

  -- `GetHardwareInstance` and `GetScoreInstance`
  unfoldable pub get_hardware_instance : Exports World → ℕ × Exports World
  unfolding ensure_runtime_initialized hardware_or_init
  get_hardware_instance s = hardware_or_init (ensure_runtime_initialized s)

  unfoldable pub get_score_instance : Exports World → ℕ × Exports World
  unfolding ensure_runtime_initialized score_or_init
  get_score_instance s = score_or_init (ensure_runtime_initialized s)

  unfoldable pub run_call : Call → Exports World → ℕ × Exports World
  unfolding dll_main get_hardware_instance get_score_instance
  run_call (call_dll_main hinst_dll fdw_reason) s = dll_main hinst_dll fdw_reason s
  run_call call_get_hardware s = get_hardware_instance s
  run_call call_get_score s = get_score_instance s

  unfoldable pub run_calls : List Call → Exports World → Exports World
  unfolding run_call
  run_calls [] s = s
  run_calls (call ∷ calls) s = run_calls calls (run_call call s).1
