-- ===== src/Patches/Path.antt =====
-- The path that `module_path` of src/patches/mod.rs returns.
use fc2_systemdetection.Patches.Build.{
  FileName, PathFault, exceeds_path_limit, module_path, module_path_from,
}
use fc2_systemdetection.Prelude.{
  Bool-cases, List, arith, inl, inr, leb, ltb, min, ok, suc, take, zero, ℕ, ◌*◌, ◌<◌, ◌==◌, ◌≡◌,
  ◌≤◌,
}

-- The path is the whole of what `GetModuleFileNameW` gives for a buffer of some capacity: it is not
-- empty, and shorter than the buffer, so that nothing has been cut off.
pub record IsWhole (get_name : ℕ → FileName) (path : List ℕ) : Type 0 where
  pub capacity : ℕ
  pub some_units : 0 < (get_name capacity).returned
  pub room : (get_name capacity).returned < capacity
  pub limit : capacity ≤ 32_768
  pub path_is : path ≡ take (get_name capacity).returned (get_name capacity).buffer

module_path_from-IsWhole :
    (get_name : ℕ → FileName) (lost : PathFault) (fuel capacity : ℕ) (path : List ℕ)
    → capacity ≤ 32_768
    → module_path_from get_name lost fuel capacity ≡ ok path
    → IsWhole get_name path
unfolding module_path_from
module_path_from-IsWhole get_name lost zero capacity path small h = cc
module_path_from-IsWhole get_name lost (suc fuel) capacity path small h =
    elim (Bool-cases ((get_name capacity).returned == 0)) [
      | inl nothing ↦ absurd (ground arith)
      | inr given ↦ elim (Bool-cases (ltb (get_name capacity).returned capacity)) [
        | inl fits ↦ record {
          capacity = capacity;
          some_units = ground arith;
          room = ground arith;
          limit = small;
          path_is = ground arith;
        }
        | inr full ↦ elim (Bool-cases (leb 32_768 capacity)) [
          | inl over ↦ absurd (ground arith)
          | inr under ↦
              module_path_from-IsWhole get_name lost fuel (min (capacity * 2) 32_768) path
                (omega arith) (ground arith)
        ]
      ]
    ]

-- A path that `module_path` returns is the whole name that Windows gives for some buffer of at most
-- 32768 units, not empty and not cut off.
pub module_path-IsWhole :
    (get_name : ℕ → FileName) (path : List ℕ)
    → module_path get_name ≡ ok path
    → IsWhole get_name path
unfolding module_path
module_path-IsWhole get_name path h =
    module_path_from-IsWhole get_name exceeds_path_limit 8 260 path (omega arith) h
