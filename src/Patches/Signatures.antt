-- ===== src/Patches/Signatures.antt =====
-- The module `signatures` of src/patches/mod.rs.
use fc2_systemdetection.Text.{Text, codes}

abbrev pub jackal_tapes : Text
jackal_tapes = codes "80 7E 74 00 75 ?? 3B CA 75"

abbrev pub devmode_always_on : Text
devmode_always_on = codes "80 79 ?? 00 8B 54 24 ?? ??"

abbrev pub predecessor_tapes_steam : Text
predecessor_tapes_steam = codes "8B 49 0C 85 C9 ?? ?? 8B 44 24"

abbrev pub machetes : Text
machetes = codes "83 EC ?? 53 8D 44 24 ?? 50 68"

abbrev pub mesh_highlight : Text
mesh_highlight = codes "4D 65 73 68 ?? 48 69 67 68 6C 69 67 68 74"

abbrev pub arch_blink : Text
arch_blink = codes "61 72 63 68 42 6C 69 6E ??"

abbrev pub save_disk : Text
save_disk =
    codes
      "67 61 64 67 65 74 73 2E 4F 62 6A 65 63 74 69 76 65 49 63 6F 6E 73 2E 53 61 76 65 44 69 73 6B ??"
