-- ===== src/Memory/Again.antt =====
-- A call of `write_checked` of src/patches/memory.rs made twice, and one undone.
use fc2_systemdetection.Memory.Bytes.{Bytes, peek, peek-poke, poke, poke_undo}
use fc2_systemdetection.Memory.Checked.{
  Checked, WriteState, already_applied, applied, classify_bytes, read_bytes, validate_bytes,
  validate_lengths, verify_write, write_checked, write_classified, write_region, write_unprotected,
}
use fc2_systemdetection.Memory.Os.{Machine, Os}
use fc2_systemdetection.Memory.Reads.{read_bytes-eq-peek, validate_bytes-ok, validate_lengths-ok}
use fc2_systemdetection.Memory.Writes.{Replaced, WriteSpec, write_checked_lem}
use fc2_systemdetection.Prelude.{
  >>=-eq-ok, List, Option, String, ap, arith, err, inl, inr, length, list_eq_iff, list_eq_refl,
  none, ok, refl, some, subst, sym, ℕ, ◌∙◌, ◌≡◌, ◌⊎◌,
}

module _ {Pages : Type 0} ⦃os : Os Pages⦄ where
  verify_write-ok :
      (m : Machine Pages) (address : ℕ) (replacement : List ℕ) (a b : Option String)
      {s : WriteState}
      → verify_write m address replacement a b ≡ ok s
      → read_bytes m address (length replacement) ≡ ok replacement
  unfolding verify_write
  verify_write-ok m address replacement (some e) b h = cc
  verify_write-ok m address replacement none (some e) h = cc
  verify_write-ok m address replacement none none h =
      let (actual, found, test) = >>=-eq-ok (read_bytes m address (length replacement)) _ h in
      ground (arith, found, list_eq_iff actual replacement, test)

  -- The outcome of a write that succeeded reads as the replacement.
  abbrev Reads : ℕ → List ℕ → Checked WriteState × Machine Pages → Type 0
  Reads address replacement (ok s, m') = read_bytes m' address (length replacement) ≡ ok replacement
  Reads address replacement (err e, m') = Unit

  write_unprotected-Reads :
      (m : Machine Pages) (address : ℕ) (replacement : List ℕ) (p : Pages) (old : Option ℕ)
      → Reads address replacement (write_unprotected m address replacement p old)
  unfolding write_unprotected
  write_unprotected-Reads m address replacement p none = tt
  write_unprotected-Reads m address replacement p (some old) = verified _ _ refl
    where
      flushed : Pages
      flushed =
          (os.flush_instruction_cache (os.virtual_protect p address (length replacement) old).0
            address (length replacement)).0

      after : Machine Pages
      after = record { bytes = poke m.bytes address replacement; pages = flushed }

      verified :
          (r : Checked WriteState) (a : Option String × Option String)
          → verify_write after address replacement a.0 a.1 ≡ r
          → Reads address replacement (r, after)
      verified (ok s) a h = verify_write-ok after address replacement a.0 a.1 h
      verified (err e) a h = tt

  write_region-Reads :
      (m : Machine Pages) (address : ℕ) (replacement : List ℕ) (w : Checked ℕ)
      → Reads address replacement (write_region m address replacement w)
  unfolding write_region
  write_region-Reads m address replacement (err e) = tt
  write_region-Reads m address replacement (ok writable) =
      write_unprotected-Reads m address replacement _ _

  already_read :
      (m : Machine Pages) (address : ℕ) (expected replacement : List ℕ)
      → validate_bytes m address expected replacement ≡ ok already_applied
      → read_bytes m address (length replacement) ≡ ok replacement
  unfolding validate_bytes
  already_read m address expected replacement h =
      let (u, valid, rest) = >>=-eq-ok (validate_lengths expected replacement) _ h in
      let (actual, found, class) = >>=-eq-ok (read_bytes m address (length expected)) _ rest in
      let (same, some_bytes) = validate_lengths-ok expected replacement valid in
      let held : actual ≡ replacement =
        read_bytes-eq-peek m address (length expected) found
        ∙ rw same (validate_bytes-ok m address expected replacement h).0 in
      rw (← same, ← held) found

  write_classified-Reads :
      (m : Machine Pages) (address : ℕ) (expected replacement : List ℕ) (c : Checked WriteState)
      → c ≡ validate_bytes m address expected replacement
      → Reads address replacement (write_classified m address replacement c)
  unfolding write_classified
  write_classified-Reads m address expected replacement (err e) h = tt
  write_classified-Reads m address expected replacement (ok already_applied) h =
      already_read m address expected replacement (sym h)
  write_classified-Reads m address expected replacement (ok applied) h =
      write_region-Reads m address replacement _

  -- A destination that reads as the replacement validates as already applied.
  validate_bytes-present :
      (m : Machine Pages) (address : ℕ) (expected replacement : List ℕ)
      → validate_lengths expected replacement ≡ ok tt
      → read_bytes m address (length replacement) ≡ ok replacement
      → validate_bytes m address expected replacement ≡ ok already_applied
  unfolding validate_bytes
  validate_bytes-present m address expected replacement valid found =
      let (same, some_bytes) = validate_lengths-ok expected replacement valid in
      rw valid (rw (same, found) (unfold classify_bytes in rw (list_eq_refl replacement)))

  pub write_checked_classified :
      (m : Machine Pages) (address : ℕ) (expected replacement : List ℕ)
      → write_checked m address expected replacement
        ≡ write_classified m address replacement (validate_bytes m address expected replacement)
  unfolding write_checked validate_bytes
  write_checked_classified m address expected replacement = refl

  write_classified-ok :
      (m : Machine Pages) (address : ℕ) (replacement : List ℕ) (c : Checked WriteState)
      {s : WriteState} {m' : Machine Pages}
      → write_classified m address replacement c ≡ (ok s, m')
      → (s' : WriteState) × (c ≡ ok s')
  unfolding write_classified
  write_classified-ok m address replacement (err e) h = cc
  write_classified-ok m address replacement (ok s') h = (s', refl)

  pub validate_bytes-lengths :
      (m : Machine Pages) (address : ℕ) (expected replacement : List ℕ) {s : WriteState}
      → validate_bytes m address expected replacement ≡ ok s
      → validate_lengths expected replacement ≡ ok tt
  unfolding validate_bytes
  validate_bytes-lengths m address expected replacement h =
      (>>=-eq-ok (validate_lengths expected replacement) _ h).1

  -- A checked write that has succeeded can be made again: it then reports `already_applied` and
  -- changes nothing.
  pub write_checked-again :
      (m : Machine Pages) (address : ℕ) (expected replacement : List ℕ) {s : WriteState}
      {m' : Machine Pages}
      → write_checked m address expected replacement ≡ (ok s, m')
      → write_checked m' address expected replacement ≡ (ok already_applied, m')
  write_checked-again m address expected replacement {s} {m'} h =
      let classified = sym (write_checked_classified m address expected replacement) ∙ h in
      let (s', valid) = write_classified-ok m address replacement _ classified in
      let lengths = validate_bytes-lengths m address expected replacement valid in
      let found : read_bytes m' address (length replacement) ≡ ok replacement =
        subst (Reads address replacement) classified
          (write_classified-Reads m address expected replacement _ refl) in
      write_checked_classified m' address expected replacement
      ∙ rw (validate_bytes-present m' address expected replacement lengths found)
          (unfold write_classified in refl)

  -- Undoing a checked write that has been made, by the same write with the two slices exchanged:
  -- where it succeeds memory is as it was before, and where it fails it is so, or is still written.
  pub write_checked_undo :
      (mem : Bytes) (m' : Machine Pages) (address : ℕ) (expected replacement : List ℕ)
      → Replaced mem address expected replacement m'.bytes
      → let (result, m'') = write_checked m' address replacement expected in
        ((s : WriteState) → result ≡ ok s → m''.bytes ≡ mem)
        × ((m''.bytes ≡ mem) ⊎ (m''.bytes ≡ m'.bytes))
  write_checked_undo mem m' address expected replacement done =
      undone _ (write_checked_lem m' address replacement expected)
    where
      restored :
          (m'' : Machine Pages) → m''.bytes ≡ poke m'.bytes address expected → m''.bytes ≡ mem
      restored m'' now =
          now
          ∙ ap (λ held_bytes. poke held_bytes address expected) done.now
          ∙ poke_undo mem address replacement expected (sym done.lengths)
              (rw done.lengths done.held)

      undone :
          (out : Checked WriteState × Machine Pages)
          → WriteSpec m' address replacement expected out
          → ((s : WriteState) → out.0 ≡ ok s → out.1.bytes ≡ mem)
            × ((out.1.bytes ≡ mem) ⊎ (out.1.bytes ≡ m'.bytes))
      undone (ok applied, m'') w = (λ s h. restored m'' w.now, inl (restored m'' w.now))
      undone (ok already_applied, m'') (same, held) = absurd (
          done.differs (
            sym held
            ∙ ap (λ held_bytes. peek held_bytes address (length expected)) done.now
            ∙ rw done.lengths (peek-poke mem address replacement)))
      undone (err e, m'') (inl same) = (λ s h. cc, inr same)
      undone (err e, m'') (inr w) = (λ s h. cc, inl (restored m'' w.now))
