-- ===== src/Tests/ExportRuns.antt =====
-- The exports of src/lib.rs, called one after another.
use fc2_systemdetection.Exports.Entry.{
  Call, Exports, Services, call_dll_main, call_get_hardware, call_get_score, dll_main,
  ensure_runtime_initialized, get_hardware_instance, get_score_instance, hardware_or_init, run_call,
  run_calls, score_or_init,
}
use fc2_systemdetection.Exports.Once.{get_hardware_instance_stable, run_calls_settled}
use fc2_systemdetection.Prelude.{List, [], false, none, refl, some, true, ℕ, ◌+◌, ◌∷◌, ◌≡◌}

-- The modules that `initialize` has been called with, and the next free address.
abbrev Log : Type 0
Log = List ℕ × ℕ

instance abbrev log_services : Services Log
log_services = record {
  dll_process_attach = 1;
  initialize = λ w module_. (module_ ∷ w.0, w.1);
  new_hardware = λ w. (w.1, (w.0, w.1 + 32));
  new_score = λ w. (w.1, (w.0, w.1 + 20));
}

abbrev at_load : Exports Log
at_load = record {
  self_module = 0;
  runtime_initialized = false;
  gear_hardware = none;
  gear_score = none;
  world = ([], 0x100);
}

-- The DLL is loaded at 0x400, both objects are fetched, and a thread is attached.
abbrev first_calls : List Call
first_calls =
    call_dll_main 0x400 1 ∷ call_get_score ∷ call_get_hardware ∷ call_dll_main 0x500 2 ∷ []

abbrev after_first : Exports Log
after_first = record {
  self_module = 0x400;
  runtime_initialized = true;
  gear_hardware = some 0x114;
  gear_score = some 0x100;
  world = (0x400 ∷ [], 0x134);
}

first_run : run_calls first_calls at_load ≡ after_first
unfolding run_calls run_call dll_main get_hardware_instance get_score_instance hardware_or_init
    score_or_init ensure_runtime_initialized
first_run = refl

get_hardware_instance_stable_example :
    (get_hardware_instance (run_calls first_calls (get_hardware_instance at_load).1)).0
    ≡ (get_hardware_instance at_load).0
get_hardware_instance_stable_example = get_hardware_instance_stable at_load first_calls

run_calls_settled_example : (run_calls first_calls after_first).world ≡ (0x400 ∷ [], 0x134)
run_calls_settled_example = run_calls_settled first_calls after_first (record {
  initialized = refl;
  hardware = 0x114;
  has_hardware = refl;
  score = 0x100;
  has_score = refl;
})
