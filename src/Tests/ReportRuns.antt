-- ===== src/Tests/ReportRuns.antt =====
-- The texts and `initialize` of src/patches/mod.rs.
use fc2_systemdetection.Scan.Pattern
use fc2_systemdetection.Config.Documents.{
  Item, key_devmode_always_on, key_jackal_tapes, key_machetes, key_predecessor_tapes, render,
  setting,
}
use fc2_systemdetection.Config.Options.{contents, default}
use fc2_systemdetection.Exports.Entry.{
  Exports, call_dll_main, call_get_hardware, call_get_score, run_calls,
}
use fc2_systemdetection.Exports.Process.{Objects, Process, process_services, run_calls-contained}
use fc2_systemdetection.Memory.Checked.{unexpected_bytes}
use fc2_systemdetection.Memory.Display.{display_memory, format_bytes}
use fc2_systemdetection.Patches.Build.{module_path, module_path_from}
use fc2_systemdetection.Patches.Configured.{initialize_off}
use fc2_systemdetection.Patches.Display.{display_reason, display_report, display_status}
use fc2_systemdetection.Patches.Initialize.{
  Files, emit_report, initialize, log_directory, output_debug_string,
}
use fc2_systemdetection.Patches.Run.{dunia_not_loaded, fail_enabled, new_report}
use fc2_systemdetection.Prelude.{
  List, [], arith, false, map, none, ok, refl, some, true, ℕ, ◌++◌, ◌+◌, ◌∷◌, ◌≡◌,
}
use fc2_systemdetection.Scan.Pattern.{Pattern}
use fc2_systemdetection.Scan.Shown.{parse-format_bytes}
use fc2_systemdetection.Tests.Fixture.{calm, calm_os, modules, outside_image, portex}
use fc2_systemdetection.Text.{Text, codes}
use fc2_systemdetection.Text.Format.{decimal, digits, hex, hex_address, hex_padded, join}

texts :
    (display_memory (unexpected_bytes 0x1000 (0x0A ∷ []) (0x14 ∷ []) (0x24 ∷ []))
      ≡ codes "unexpected bytes at 0x00001000: expected 0A or already-patched 14, found 24")
    × (decimal 20_183_176 ≡ codes "20183176")
    × (hex 0x401000 ≡ codes "401000")
    × (format_bytes (0x74 ∷ 0x16 ∷ []) ≡ codes "74 16")
unfolding display_memory format_bytes join hex_address hex_padded hex decimal digits
texts = (refl, refl, refl, refl)

parse-format_bytes_example :
    Pattern.parse (format_bytes (0x74 ∷ 0x06 ∷ []))
    ≡ ok (record { bytes = map some (0x74 ∷ 0x06 ∷ []) })
parse-format_bytes_example =
    parse-format_bytes (0x74 ∷ 0x06 ∷ []) (λ h. cc) (omega arith, (omega arith, tt))

-- A document that turns all patches off; `no_blinking_items` is off by default.
abbrev all_off : List Item
all_off =
    setting key_jackal_tapes false
    ∷ setting key_devmode_always_on false
    ∷ setting key_predecessor_tapes false
    ∷ setting key_machetes false
    ∷ []

abbrev ini_file : Text
ini_file = render true all_off

-- A DLL with the name "A" whose directory has the empty name, and a log that cannot be written.
abbrev files : Files
files = record {
  own_name = λ capacity. record { returned = 1; buffer = 0x41 ∷ []; error = "" };
  parent = λ path. some [];
  join_path = λ directory name. name;
  display_path = λ path. path;
  read_to_string = λ path. contents ini_file;
  current_exe = none;
  write_file = λ path text. some "access denied";
  debug = λ text. text;
}

own_path : module_path files.own_name ≡ ok (0x41 ∷ [])
unfolding module_path module_path_from
own_path = refl

initialize_off_example :
    ((initialize files modules portex calm).2 ≡ calm)
    × ((initialize files modules portex calm).0.warnings ≡ [])
initialize_off_example =
    initialize_off files modules portex calm (0x41 ∷ []) [] true all_off own_path refl refl
      (refl, (refl, (refl, (refl, (refl, tt)))))

-- The report that goes to the debugger when Dunia.dll is not loaded, and the message behind it.
unloaded_report :
    emit_report files (
      display_report files.debug (
        fail_enabled new_report (record default { machetes = false }) (dunia_not_loaded "missing")))
    ≡ output_debug_string (
        codes
          "fc2-systemdetection patch report\nConfiguration: unavailable\nDunia build: unavailable\nDunia image: unavailable\njackal_tapes: FAILED: Dunia.dll is not loaded: missing\ndevmode_always_on: FAILED: Dunia.dll is not loaded: missing\npredecessor_tapes: FAILED: Dunia.dll is not loaded: missing\nmachetes: disabled\nno_blinking_items: disabled\n"
        ++ (0 ∷ []))
      ∷ output_debug_string (
          codes "fc2-systemdetection: could not write fc2-systemdetection.log: access denied"
          ++ (0 ∷ []))
      ∷ []
unfolding emit_report log_directory module_path module_path_from display_report display_status
    display_reason fail_enabled
unloaded_report = refl

-- Objects that take 32 bytes from the next free address on.
abbrev objects : Objects ℕ
objects = record {
  attach = 1;
  make_hardware = λ next. (next, next + 32);
  make_score = λ next. (next, next + 32);
}

abbrev at_load : Exports (Process (Unit {0}) ℕ)
at_load = record {
  self_module = 0;
  runtime_initialized = false;
  gear_hardware = none;
  gear_score = none;
  world = record { machine = calm; effects = []; rest = 0x100 };
}

run_calls-contained_example :
    (run_calls ⦃services = process_services (λ self. files) modules portex objects⦄
        (call_dll_main 0x400 1 ∷ call_get_hardware ∷ call_get_score ∷ call_get_hardware ∷ [])
        at_load).world.machine.bytes
      0
    ≡ 0
run_calls-contained_example =
    run_calls-contained (λ self. files) modules portex objects
      (call_dll_main 0x400 1 ∷ call_get_hardware ∷ call_get_score ∷ call_get_hardware ∷ []) at_load
      0 refl outside_image
