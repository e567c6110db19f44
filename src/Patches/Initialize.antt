-- ===== src/Patches/Initialize.antt =====
-- `initialize`, `load_patch_config` and `emit_report` of src/patches/mod.rs. A path is the list of
-- its UTF-16 units.
use fc2_systemdetection.Config.Options.{FileRead, PatchConfig, Warning, default, load}
use fc2_systemdetection.Memory.Os.{Machine, Os}
use fc2_systemdetection.Patches.Build.{FileName, module_path}
use fc2_systemdetection.Patches.Display.{display_report}
use fc2_systemdetection.Patches.Run.{
  Configuration, Modules, PatchReport, dll_directory_unavailable, dll_path_unavailable, read_from,
  run,
}
use fc2_systemdetection.Prelude.{List, Option, String, [], err, none, ok, some, ℕ, ◌++◌, ◌∷◌}
use fc2_systemdetection.Scan.Range.{Portex}
use fc2_systemdetection.Text.{Text, codes}
use fc2_systemdetection.Text.Format.{concat}

-- What they use of `std::path`, `std::fs` and `std::env`, which depends on the system, and the name of
-- the DLL itself as `GetModuleFileNameW` gives it.
pub record Files : Type 0 where
  pub own_name : ℕ → FileName
  pub parent : List ℕ → Option (List ℕ)
  pub join_path : List ℕ → Text → List ℕ
  pub display_path : List ℕ → Text
  pub read_to_string : List ℕ → FileRead
  pub current_exe : Option (List ℕ)
  -- The text of the error, where the file cannot be written.
  pub write_file : List ℕ → Text → Option String
  -- `{:?}` of a text.
  pub debug : Text → Text

-- What a call leaves outside the process.
pub data Effect : Type 0 where
  output_debug_string : Text → Effect
  file_written : List ℕ → Text → Effect

unfoldable pub load_patch_config : Files → PatchConfig × Configuration × List Warning
unfolding module_path load
load_patch_config files = elim (module_path files.own_name) [
  | err error ↦ (default, dll_path_unavailable error, [])
  | ok dll_path ↦ elim (files.parent dll_path) [
    | none ↦ (default, dll_directory_unavailable, [])
    | some directory ↦
        let path = files.join_path directory (codes "fc2-systemdetection.ini") in
        let loading = load files.read_to_string path in
        (
          loading.config,
          read_from (files.display_path loading.path) loading.source,
          loading.warnings,
        )
  ]
]

-- The directory of the log: that of the DLL, or else that of the program.
unfoldable pub log_directory : Files → Option (List ℕ)
unfolding module_path
log_directory files =
    let of_program : Option (List ℕ) = elim files.current_exe [
      | none ↦ none
      | some exe ↦ files.parent exe
    ] in
    elim (module_path files.own_name) [
      | err error ↦ of_program
      | ok path ↦ elim (files.parent path) [ none ↦ of_program | some directory ↦ some directory ]
    ]

-- `emit_report`; each text for the debugger ends in a NUL.
unfoldable pub emit_report : Files → Text → List Effect
unfolding log_directory
emit_report files report = output_debug_string (report ++ (0 ∷ [])) ∷ elim (log_directory files) [
  | none ↦ []
  | some directory ↦
      let log_path = files.join_path directory (codes "fc2-systemdetection.log") in
      elim (files.write_file log_path report) [
        | none ↦ file_written log_path report ∷ []
        | some error ↦
            output_debug_string (
              concat (
                codes "fc2-systemdetection: could not write "
                ∷ files.display_path log_path
                ∷ codes ": "
                ∷ codes error
                ∷ (0 ∷ [])
                ∷ []))
            ∷ []
      ]
]

module _ {Pages : Type 0} ⦃os : Os Pages⦄ where
  -- `initialize`, with the report that it emits.
  unfoldable pub initialize :
      {Handle PortexError : Type 0}
      → Files
      → Modules Pages Handle
      → Portex PortexError
      → Machine Pages
      → PatchReport × List Effect × Machine Pages
  unfolding load_patch_config run emit_report display_report
  initialize files modules portex m =
      let (config, configuration, configuration_warnings) = load_patch_config files in
      let (result, m') = run modules portex m config in
      let report = record result {
        configuration = some configuration;
        warnings = configuration_warnings;
      } in
      (report, emit_report files (display_report files.debug report), m')
