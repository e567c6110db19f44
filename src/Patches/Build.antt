-- ===== src/Patches/Build.antt =====
-- `DuniaBuild`, `module_path` and `detect_build` of src/patches/mod.rs.
use fc2_systemdetection.Prelude.{
  List, Option, Result, String, arith, err, if◌then◌else◌, leb, ltb, min, none, ok, refl, some, suc,
  take, zero, ℕ, ◌*◌, ◌+◌, ◌==◌, ◌≡◌,
}

abbrev pub steam_dunia_file_size : ℕ
steam_dunia_file_size = 20_183_176

abbrev pub retail_dunia_file_size : ℕ
retail_dunia_file_size = 19_412_104

abbrev pub ubisoft_dunia_file_size : ℕ
ubisoft_dunia_file_size = 20_184_168

pub data DuniaBuild : Type 0 where
  steam retail ubisoft : DuniaBuild
  unknown : Option ℕ → DuniaBuild

-- `DuniaBuild::from_file_size`
unfoldable pub from_file_size : Option ℕ → DuniaBuild
from_file_size none = unknown none
from_file_size (some n) =
    if n == steam_dunia_file_size
    then steam
    else if n == retail_dunia_file_size
    then retail
    else if n == ubisoft_dunia_file_size
    then ubisoft
    else unknown (some n)

-- The errors of `module_path`.
pub data PathFault : Type 0 where
  path_unavailable : String → PathFault
  exceeds_path_limit : PathFault

-- What `GetModuleFileNameW` returns for a buffer of the given capacity: the length, and the UTF-16
-- units put into the buffer; the text of the last error goes with a length of 0.
pub record FileName : Type 0 where
  pub returned : ℕ
  pub buffer : List ℕ
  pub error : String

-- The loop of `module_path`. The fuel bounds the rounds; `lost` is the answer if it ran out.
unfoldable pub module_path_from : (ℕ → FileName) → PathFault → ℕ → ℕ → Result PathFault (List ℕ)
module_path_from get_name lost zero capacity = err lost
module_path_from get_name lost (suc fuel) capacity =
    let name = get_name capacity in
    let again = module_path_from get_name lost fuel (min (capacity * 2) 32_768) in
    if name.returned == 0
    then err (path_unavailable name.error)
    else if ltb name.returned capacity
    then ok (take name.returned name.buffer)
    else if leb 32_768 capacity
    then err exceeds_path_limit
    else again

-- Eight rounds: capacities 260, 520, .. , 16640, 32768.
unfoldable pub module_path : (ℕ → FileName) → Result PathFault (List ℕ)
unfolding module_path_from
module_path get_name = module_path_from get_name exceeds_path_limit 8 260

-- `detect_build`; `metadata_len` is the length that `std::fs::metadata` reports for a path, where
-- it succeeds.
unfoldable pub detect_build : (ℕ → FileName) → (List ℕ → Option ℕ) → DuniaBuild
unfolding module_path from_file_size
detect_build get_name metadata_len =
    from_file_size (elim (module_path get_name) [ ok path ↦ metadata_len path | err e ↦ none ])

-- The loop ends within its eight rounds: more fuel, and another answer at its end, change nothing.
pub module_path_fuel :
    (get_name : ℕ → FileName) (lost : PathFault) (fuel : ℕ)
    → module_path_from get_name lost (8 + fuel) 260 ≡ module_path get_name
unfolding module_path
module_path_fuel get_name lost fuel =
    let eight : 8 + fuel ≡ suc (suc (suc (suc (suc (suc (suc (suc fuel))))))) = omega arith in
    rw eight refl
