-- ===== src/Patches/Configured.antt =====
-- `initialize` of src/patches/mod.rs with the file that src/patches/config.rs parses.
use fc2_systemdetection.Config.Documents.{Item, meaning, parse-render, render}
use fc2_systemdetection.Config.Options.{contents, default, load}
use fc2_systemdetection.Memory.Os.{Machine, Os}
use fc2_systemdetection.Patches.Build.{module_path}
use fc2_systemdetection.Patches.Disabled.{AreOff, run_off}
use fc2_systemdetection.Patches.Initialize.{Files, initialize, load_patch_config}
use fc2_systemdetection.Patches.Run.{Modules}
use fc2_systemdetection.Prelude.{Bool, List, [], ap, ok, some, true, ℕ, ◌≡◌}
use fc2_systemdetection.Scan.Range.{Portex}
use fc2_systemdetection.Text.{codes}

load_document :
    (files : Files) (path directory : List ℕ) (mark : Bool) (items : List Item)
    → module_path files.own_name ≡ ok path
    → files.parent path ≡ some directory
    → files.read_to_string (files.join_path directory (codes "fc2-systemdetection.ini"))
      ≡ contents (render mark items)
    → ((load_patch_config files).0 ≡ meaning true items default)
      × ((load_patch_config files).2 ≡ [])
unfolding load_patch_config load
load_document files path directory mark items named placed held =
    let parsed = parse-render mark items in
    rw (named, placed, load_patch_config)
      (rw (held, load) (ap (λ r. r.0) parsed, ap (λ r. r.1) parsed))

-- Where the file beside the DLL is a document whose items turn all patches off, `initialize` leaves
-- the process as it is, and its report has no warning.
pub initialize_off :
    {Pages Handle PortexError : Type 0} ⦃os : Os Pages⦄ (files : Files)
    (modules : Modules Pages Handle) (portex : Portex PortexError) (m : Machine Pages)
    (path directory : List ℕ) (mark : Bool) (items : List Item)
    → module_path files.own_name ≡ ok path
    → files.parent path ≡ some directory
    → files.read_to_string (files.join_path directory (codes "fc2-systemdetection.ini"))
      ≡ contents (render mark items)
    → AreOff (meaning true items default)
    → ((initialize files modules portex m).2 ≡ m)
      × ((initialize files modules portex m).0.warnings ≡ [])
unfolding initialize
initialize_off files modules portex m path directory mark items named placed held off =
    let (config_is, warnings_are) =
      load_document files path directory mark items named placed held in
    (run_off modules portex m (load_patch_config files).0 (rw config_is off), warnings_are)
