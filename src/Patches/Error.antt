-- ===== src/Patches/Error.antt =====
-- `PatchError`. The texts in `reasons` are kept as values that name what is formatted into them.
use fc2_systemdetection.Memory.Checked.{MemoryError}
use fc2_systemdetection.Prelude.{List, Result, map_err, ℕ}
use fc2_systemdetection.Scan.Error.{ScanError, ScanScope}
use fc2_systemdetection.Text.{Text}

pub data Rejection : Type 0 where
  target_overflow : ℕ → Rejection
  target_leaves_section : ℕ → ℕ → Rejection
  bytes_rejected : MemoryError → Rejection
  known_target_precedes_offset : ℕ → ℕ → Rejection
  no_context_at_known_start : ℕ → Rejection

mutual
  pub data PatchError : Type 0 where
    scan_error : ScanError → PatchError
    memory_error : MemoryError → PatchError
    signature_not_found : Text → ScanScope → PatchError
    no_validated_target : Text → ℕ → List Rejection → PatchError
    ambiguous_target : Text → List ℕ → PatchError
    empty_plan : PatchError
    partial_write : ℕ → PatchError → PatchErrors → PatchError

  -- A `Vec<PatchError>`.
  pub data PatchErrors : Type 0 where
    no_errors : PatchErrors
    add_error : PatchError → PatchErrors → PatchErrors

abbrev pub Planned {ℓ} : Type ℓ → Type ℓ
Planned A = Result PatchError A

-- `From<ScanError>` and `From<MemoryError>`, as `?` applies them.
abbrev pub from_scan {ℓ} : {A : Type ℓ} → Result ScanError A → Planned A
from_scan = map_err scan_error

abbrev pub from_memory {ℓ} : {A : Type ℓ} → Result MemoryError A → Planned A
from_memory = map_err memory_error
