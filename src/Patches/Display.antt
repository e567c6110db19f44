-- ===== src/Patches/Display.antt =====
-- `Display` of the errors, builds and reports of src/patches/mod.rs, and the texts of the warnings
-- of src/patches/config.rs. `debug` is `{:?}` of a text.
use fc2_systemdetection.Config.Options.{
  Warning, expected_key_value, invalid_boolean, loaded, missing_using_defaults,
  read_failed_using_defaults, unknown_option,
}
use fc2_systemdetection.Memory.Display.{display_memory}
use fc2_systemdetection.Patches.Build.{
  DuniaBuild, PathFault, exceeds_path_limit, path_unavailable, retail, steam, ubisoft, unknown,
}
use fc2_systemdetection.Patches.Error.{
  PatchError, PatchErrors, Rejection, add_error, ambiguous_target, bytes_rejected, empty_plan,
  known_target_precedes_offset, memory_error, no_context_at_known_start, no_errors,
  no_validated_target, partial_write, scan_error, signature_not_found, target_leaves_section,
  target_overflow,
}
use fc2_systemdetection.Patches.Run.{
  Configuration, FailReason, PatchReport, PatchStatus, could_not_inspect, disabled,
  dll_directory_unavailable, dll_path_unavailable, dunia_not_loaded, failed, patch_failed,
  read_from, status_already_applied, status_applied,
}
use fc2_systemdetection.Prelude.{
  List, Option, [], if◌then◌else◌, is_empty, map, none, some, ℕ, ◌++◌, ◌∷◌,
}
use fc2_systemdetection.Scan.Display.{debug_scope, display_scan}
use fc2_systemdetection.Text.{Text, codes}
use fc2_systemdetection.Text.Format.{concat, decimal, hex, hex_address, join}

module _ (debug : Text → Text) where
  -- The texts that `find_signature_target` and `checked_known_signature_write` push.
  unfoldable pub display_rejection : Rejection → Text
  unfolding hex_address decimal display_memory
  display_rejection (target_overflow start) =
      concat (codes "match " ∷ hex_address start ∷ codes ": target address overflow" ∷ [])
  display_rejection (target_leaves_section start target) = concat (
      codes "match "
      ∷ hex_address start
      ∷ codes ": target "
      ∷ hex_address target
      ∷ codes " leaves its matched PE section"
      ∷ [])
  display_rejection (bytes_rejected error) = display_memory error
  display_rejection (known_target_precedes_offset target_rva target_offset) = concat (
      codes "known target RVA "
      ∷ hex_address target_rva
      ∷ codes " precedes offset "
      ∷ decimal target_offset
      ∷ [])
  display_rejection (no_context_at_known_start start_rva) =
      codes "no matching context at known start RVA " ++ hex_address start_rva

  unfoldable mutual
    unfolding display_rejection display_scan display_memory hex_address decimal join

    pub display_patch : PatchError → Text
    display_patch (scan_error error) = display_scan debug error
    display_patch (memory_error error) = display_memory error
    display_patch (signature_not_found signature scope) = concat (
        codes "signature "
        ∷ debug signature
        ∷ codes " was not found in "
        ∷ debug_scope scope
        ∷ codes " sections"
        ∷ [])
    display_patch (no_validated_target signature raw_matches reasons) = concat (
        codes "signature "
        ∷ debug signature
        ∷ codes " had "
        ∷ decimal raw_matches
        ∷ codes " raw match(es), but no guarded target"
        ∷ (if is_empty reasons
            then []
            else codes ": " ++ join (codes "; ") (map display_rejection reasons))
        ∷ [])
    display_patch (ambiguous_target signature addresses) = concat (
        codes "signature "
        ∷ debug signature
        ∷ codes " resolved to multiple guarded targets: "
        ∷ join (codes ", ") (map hex_address addresses)
        ∷ [])
    display_patch empty_plan = codes "patch plan contains no writes"
    display_patch (partial_write count error errors) = concat (
        codes "patch failed after "
        ∷ decimal count
        ∷ codes " write(s), and rollback was incomplete: "
        ∷ display_patch error
        ∷ codes "; rollback error(s): "
        ∷ join (codes "; ") (display_errors errors)
        ∷ [])

    pub display_errors : PatchErrors → List Text
    display_errors no_errors = []
    display_errors (add_error error errors) = display_patch error ∷ display_errors errors

  -- The texts that `run` gives to `PatchStatus::Failed`.
  unfoldable pub display_reason : FailReason → Text
  unfolding display_patch display_scan
  display_reason (dunia_not_loaded error) = codes "Dunia.dll is not loaded: " ++ codes error
  display_reason (could_not_inspect error) =
      codes "could not inspect Dunia.dll: " ++ display_scan debug error
  display_reason (patch_failed error) = display_patch error

  unfoldable pub display_status : PatchStatus → Text
  unfolding display_reason
  display_status disabled = codes "disabled"
  display_status status_applied = codes "applied"
  display_status status_already_applied = codes "already applied"
  display_status (failed reason) = codes "FAILED: " ++ display_reason reason

  -- The warnings of `parse`.
  unfoldable pub display_warning : Warning → Text
  unfolding decimal
  display_warning (expected_key_value line_number) =
      concat (codes "line " ∷ decimal line_number ∷ codes ": expected key = value" ∷ [])
  display_warning (invalid_boolean line_number value key) = concat (
      codes "line "
      ∷ decimal line_number
      ∷ codes ": invalid Boolean value "
      ∷ debug value
      ∷ codes " for "
      ∷ key
      ∷ [])
  display_warning (unknown_option line_number key) =
      concat
        (codes "line " ∷ decimal line_number ∷ codes ": unknown patch option " ∷ debug key ∷ [])

unfoldable pub display_build : DuniaBuild → Text
unfolding decimal
display_build steam = codes "Steam 1.03"
display_build retail = codes "Retail/GOG 1.03"
display_build ubisoft = codes "Ubisoft Connect 1.03"
display_build (unknown (some file_size)) =
    concat (codes "unknown build (file size " ∷ decimal file_size ∷ codes ")" ∷ [])
display_build (unknown none) = codes "unknown build (file size unavailable)"

-- The errors of `module_path`.
unfoldable pub display_path_fault : PathFault → Text
display_path_fault (path_unavailable error) = codes error
display_path_fault exceeds_path_limit = codes "module path exceeds the Windows path limit"

-- The texts of `load_patch_config`.
unfoldable pub display_configuration : Configuration → Text
unfolding display_path_fault
display_configuration (dll_path_unavailable error) =
    concat
      (codes "DLL path unavailable; using defaults (" ∷ display_path_fault error ∷ codes ")" ∷ [])
display_configuration dll_directory_unavailable = codes "DLL directory unavailable; using defaults"
display_configuration (read_from path loaded) = codes "loaded " ++ path
display_configuration (read_from path missing_using_defaults) =
    path ++ codes " not found; using defaults"
display_configuration (read_from path (read_failed_using_defaults error)) =
    concat
      (codes "could not read " ∷ path ∷ codes "; using defaults (" ∷ codes error ∷ codes ")" ∷ [])

abbrev pub unwrap_or_unavailable : {A : Type 0} → (A → Text) → Option A → Text
unwrap_or_unavailable show none = codes "unavailable"
unwrap_or_unavailable show (some a) = show a

-- The text that `run` makes for the image.
unfoldable pub display_image : ℕ × ℕ → Text
unfolding hex hex_address
display_image (base, size) =
    concat (codes "base=" ∷ hex_address base ∷ codes ", SizeOfImage=0x" ∷ hex size ∷ [])

-- `writeln!`
abbrev pub line : List Text → Text
line parts = concat parts ++ (b'\n' ∷ [])

-- `Display` of `PatchReport`
unfoldable pub display_report : (Text → Text) → PatchReport → Text
unfolding display_configuration display_build display_image display_status display_warning
display_report debug report = concat (
    line (codes "fc2-systemdetection patch report" ∷ [])
    ∷ line (
        codes "Configuration: "
        ∷ unwrap_or_unavailable display_configuration report.configuration
        ∷ [])
    ∷ line (codes "Dunia build: " ∷ unwrap_or_unavailable display_build report.build ∷ [])
    ∷ line (codes "Dunia image: " ∷ unwrap_or_unavailable display_image report.image ∷ [])
    ∷ concat (
        map
          (λ outcome.
            line (codes outcome.name ∷ codes ": " ∷ display_status debug outcome.status ∷ []))
          report.outcomes)
    ∷ concat (
        map (λ warning. line (codes "configuration warning: " ∷ display_warning debug warning ∷ []))
          report.warnings)
    ∷ [])
