-- ===== src/Memory/Writes.antt =====
-- The results of `write_checked` of src/patches/memory.rs.
use fc2_systemdetection.Memory.Bytes.{Bytes, peek, poke}
use fc2_systemdetection.Memory.Checked.{
  Checked, MemoryError, WriteState, already_applied, applied, validate_bytes, verify_write,
  write_checked, write_classified, write_region, write_unprotected,
}
use fc2_systemdetection.Memory.Os.{Machine, Os}
use fc2_systemdetection.Memory.Reads.{Classifies, validate_bytes-ok}
use fc2_systemdetection.Prelude.{
  List, Option, String, arith, err, inl, inr, length, none, ok, refl, some, sym, ℕ, ◌≡◌, ◌≢◌, ◌⊎◌,
}

-- The range held the expected bytes, and holds the replacement; no other byte differs.
pub record Replaced (mem : Bytes) (address : ℕ) (expected replacement : List ℕ) (mem' : Bytes)
    : Type 0 where
  pub held : peek mem address (length replacement) ≡ expected
  pub differs : expected ≢ replacement
  pub lengths : length expected ≡ length replacement
  pub now : mem' ≡ poke mem address replacement

module _ {Pages : Type 0} ⦃os : Os Pages⦄ where
  -- What each result of a checked write says of the memory.
  abbrev pub WriteSpec :
      Machine Pages → ℕ → List ℕ → List ℕ → Checked WriteState × Machine Pages → Type 0
  WriteSpec m address expected replacement (ok applied, m') =
      Replaced m.bytes address expected replacement m'.bytes
  WriteSpec m address expected replacement (ok already_applied, m') =
      (m' ≡ m) × (peek m.bytes address (length replacement) ≡ replacement)
  WriteSpec m address expected replacement (err e, m') =
      (m'.bytes ≡ m.bytes) ⊎ Replaced m.bytes address expected replacement m'.bytes

  verify_write-ne-already :
      (m : Machine Pages) (address : ℕ) (replacement : List ℕ) (a b : Option String)
      → verify_write m address replacement a b ≢ ok already_applied
  unfolding verify_write
  verify_write-ne-already m address replacement (some e) b h = cc
  verify_write-ne-already m address replacement none (some e) h = cc
  verify_write-ne-already m address replacement none none h = ground arith

  -- Once the pages are writable either nothing is written, and the call fails, or all of the
  -- replacement is.
  abbrev Attempt : Machine Pages → ℕ → List ℕ → Checked WriteState × Machine Pages → Type 0
  Attempt m address replacement (result, m') =
      ((e : MemoryError) × (result ≡ err e) × (m'.bytes ≡ m.bytes))
      ⊎ ((result ≢ ok already_applied) × (m'.bytes ≡ poke m.bytes address replacement))

  write_unprotected-Attempt :
      (m : Machine Pages) (address : ℕ) (replacement : List ℕ) (p : Pages) (old : Option ℕ)
      → Attempt m address replacement (write_unprotected m address replacement p old)
  unfolding write_unprotected
  write_unprotected-Attempt m address replacement p none = inl (_, refl, refl)
  write_unprotected-Attempt m address replacement p (some old) =
      inr (verify_write-ne-already _ address replacement _ _, refl)

  write_region-Attempt :
      (m : Machine Pages) (address : ℕ) (replacement : List ℕ) (w : Checked ℕ)
      → Attempt m address replacement (write_region m address replacement w)
  unfolding write_region
  write_region-Attempt m address replacement (err e) = inl (e, refl, refl)
  write_region-Attempt m address replacement (ok writable) =
      write_unprotected-Attempt m address replacement _ _

  made_or_refused :
      (m : Machine Pages) (address : ℕ) (expected replacement : List ℕ)
      (result : Checked WriteState) (m' : Machine Pages)
      → length expected ≡ length replacement
      → Classifies m address expected replacement applied
      → Attempt m address replacement (result, m')
      → WriteSpec m address expected replacement (result, m')
  made_or_refused m address expected replacement (ok applied) m' same (held, differs)
        (inr (fresh, now)) =
      record { held = held; differs = differs; lengths = same; now = now }
  made_or_refused m address expected replacement (ok already_applied) m' same c (inr (fresh, now)) =
      absurd (fresh refl)
  made_or_refused m address expected replacement (ok s) m' same c (inl (e, failed, kept)) = cc
  made_or_refused m address expected replacement (err e) m' same c (inl (f, failed, kept)) =
      inl kept
  made_or_refused m address expected replacement (err e) m' same (held, differs)
        (inr (fresh, now)) =
      inr (record { held = held; differs = differs; lengths = same; now = now })

  classified_spec :
      (m : Machine Pages) (address : ℕ) (expected replacement : List ℕ) (c : Checked WriteState)
      → c ≡ validate_bytes m address expected replacement
      → WriteSpec m address expected replacement (write_classified m address replacement c)
  unfolding write_classified
  classified_spec m address expected replacement (err e) h = inl refl
  classified_spec m address expected replacement (ok already_applied) h =
      (refl, (validate_bytes-ok m address expected replacement (sym h)).0)
  classified_spec m address expected replacement (ok applied) h =
      let (class, same, some_bytes) = validate_bytes-ok m address expected replacement (sym h) in
      made_or_refused m address expected replacement _ _ same class
        (write_region-Attempt m address replacement _)

  -- A checked write that returns `applied` found the expected bytes and has put the replacement in
  -- their place; one that returns `already_applied` found the replacement and has changed nothing;
  -- one that fails has either changed no byte or has made the whole replacement.
  pub write_checked_lem :
      (m : Machine Pages) (address : ℕ) (expected replacement : List ℕ)
      → WriteSpec m address expected replacement (write_checked m address expected replacement)
  unfolding write_checked validate_bytes
  write_checked_lem m address expected replacement =
      classified_spec m address expected replacement _ refl
