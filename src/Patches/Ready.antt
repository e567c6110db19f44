-- ===== src/Patches/Ready.antt =====
-- One write of a plan of src/patches/mod.rs that is ready to be made.
-- Every write of the plan is ready.
use fc2_systemdetection.Memory.Bytes.{peek, poke, poke_same}
use fc2_systemdetection.Memory.Checked.{Checked, WriteState, already_applied, applied}
use fc2_systemdetection.Memory.Os.{Machine, Os}
use fc2_systemdetection.Memory.Protect.{ProtectLaws, Refuses, refusal_error}
use fc2_systemdetection.Memory.Total.{
  IsReady, PagesKept, write_checked_found, write_checked_succeeds,
}
use fc2_systemdetection.Memory.Writes.{WriteSpec, write_checked_lem}
use fc2_systemdetection.Patches.Error.{PatchError, Planned, memory_error}
use fc2_systemdetection.Patches.Plan.{CheckedWrite, apply_write}
use fc2_systemdetection.Prelude.{
  All, Bool, Bool-cases, List, err, false, fun_ext, inl, inr, length, list_eq, list_eq_iff, ok,
  refl, sym, true, ◌≡◌, ◌≢◌, ◌⊎◌,
}

abbrev pub AreReady : {Pages : Type 0} → Os Pages → Machine Pages → List CheckedWrite → Type 0
AreReady os m = All (λ w. IsReady os m w.address w.expected w.replacement)

pub err_ne_ok : {E : PatchError} {s : WriteState} → ◌≢◌ {A = Planned WriteState} (err E) (ok s)
err_ne_ok h = cc

differ : {b : Bool} → b ≡ false → b ≢ true
differ off on = cc

bytes_written :
    {Pages : Type 0} ⦃os : Os Pages⦄ (m : Machine Pages) (w : CheckedWrite)
    (out : Checked WriteState × Machine Pages)
    → WriteSpec m w.address w.expected w.replacement out
    → out.0 ≡ ok applied
    → out.1.bytes ≡ poke m.bytes w.address w.replacement
bytes_written m w (ok applied, m') spec h = spec.now
bytes_written m w (ok already_applied, m') spec h = cc
bytes_written m w (err e, m') spec h = cc

module _ {Pages : Type 0} ⦃os : Os Pages⦄ where
  -- A ready write stays so while its bytes and its pages are kept.
  pub IsReady-kept :
      (m m' : Machine Pages) (w : CheckedWrite)
      → PagesKept os m.pages m'.pages
      → peek m'.bytes w.address (length w.replacement)
        ≡ peek m.bytes w.address (length w.replacement)
      → IsReady os m w.address w.expected w.replacement
      → IsReady os m' w.address w.expected w.replacement
  IsReady-kept m m' w kept same r = record {
    lengths = r.lengths;
    some_bytes = r.some_bytes;
    holds = rw same r.holds;
    region = kept w.address (length w.replacement) r.some_bytes r.page r.region;
    page = r.page;
  }

  pub found-IsReady :
      (m m' : Machine Pages) (w : CheckedWrite)
      → PagesKept os m.pages m'.pages
      → peek m'.bytes w.address (length w.replacement) ≡ w.replacement
      → IsReady os m w.address w.expected w.replacement
      → IsReady os m' w.address w.expected w.replacement
  found-IsReady m m' w kept held r = record {
    lengths = r.lengths;
    some_bytes = r.some_bytes;
    holds = inr held;
    region = kept w.address (length w.replacement) r.some_bytes r.page r.region;
    page = r.page;
  }

  -- What one ready write does.
  pub record Step (m : Machine Pages) (w : CheckedWrite) (out : Planned WriteState × Machine Pages)
      : Type 0 where
    pub state : WriteState
    pub succeeded : out.0 ≡ ok state
    pub kept : PagesKept os m.pages out.1.pages
    pub bytes_are : out.1.bytes ≡ poke m.bytes w.address w.replacement

  -- Windows refuses one of the calls of a write, and that is the error.
  pub record Refusal (m : Machine Pages) (w : CheckedWrite)
      (out : Planned WriteState × Machine Pages) : Type 0 where
    pub refusal : Refuses os m.pages w.address (length w.replacement)
    pub reported :
        out.0
        ≡ err (memory_error (refusal_error os m.pages w.address (length w.replacement) refusal))

  pub ready-Step :
      (laws : ProtectLaws os) (m : Machine Pages) (w : CheckedWrite)
      → IsReady os m w.address w.expected w.replacement
      → Step m w (apply_write m w) ⊎ Refusal m w (apply_write m w)
  unfolding apply_write
  ready-Step laws m w r =
      elim (Bool-cases (list_eq (peek m.bytes w.address (length w.replacement)) w.replacement)) [
        | inl equal ↦
            let held =
              (list_eq_iff (peek m.bytes w.address (length w.replacement)) w.replacement).0 equal in
            let found = write_checked_found laws m w.address w.expected w.replacement r held in
            inl (record {
              state = already_applied;
              succeeded = rw found refl;
              kept = rw found (λ b k several page one. one);
              bytes_are =
                  rw found (sym (fun_ext λ c. poke_same m.bytes w.address w.replacement c held));
            })
        | inr unequal ↦
            let held = peek m.bytes w.address (length w.replacement) in
            let differs : held ≢ w.replacement =
              λ same. differ unequal ((list_eq_iff held w.replacement).1 same) in
            elim (write_checked_succeeds laws m w.address w.expected w.replacement r differs) [
              | inl (done, kept) ↦ inl (record {
                state = applied;
                succeeded = rw done refl;
                kept = kept;
                bytes_are =
                    bytes_written m w _ (write_checked_lem m w.address w.expected w.replacement)
                      done;
              })
              | inr (refusal, reported) ↦
                  inr (record { refusal = refusal; reported = rw reported refl })
            ]
      ]
