-- ===== src/Memory/Total.antt =====
-- Calls of `write_checked` of src/patches/memory.rs that succeed unless Windows refuses.
use fc2_systemdetection.Memory.Again.{write_checked_classified}
use fc2_systemdetection.Memory.Bytes.{Bytes, InRange, peek, peek-poke, poke}
use fc2_systemdetection.Memory.Checked.{
  Checked, WriteState, already_applied, applied, classify_bytes, is_refused, query_readable,
  read_bytes, validate_bytes, validate_lengths, verify_write, writable_protection_for_single_region,
  write_checked, write_classified, write_region, write_unprotected,
}
use fc2_systemdetection.Memory.Os.{Machine, Os}
use fc2_systemdetection.Memory.Protect.{
  IsWritable, OneRegion, ProtectLaws, Refuses, WithinPage, refusal_error, refuses_flush,
  refuses_restore, refuses_write,
}
use fc2_systemdetection.Memory.Reads.{Classifies, IsReadable, read_bytes_iff, validate_bytes-ok}
use fc2_systemdetection.Prelude.{
  Bool-cases, List, Option-cases, [], ap, arith, bit_and, err, inl, inr, length, list_eq,
  list_eq_refl, ok, refl, some, subst, sym, usize_mod, ℕ, ◌+◌, ◌<◌, ◌==◌, ◌||◌, ◌∙◌, ◌∷◌, ◌≡◌, ◌≢◌,
  ◌⊎◌,
}

-- The range holds these bytes or those, and can be read and made writable.
pub record IsReady {Pages : Type 0} (os : Os Pages) (m : Machine Pages) (a : ℕ)
    (expected replacement : List ℕ) : Type 0 where
  pub lengths : length expected ≡ length replacement
  pub some_bytes : 0 < length replacement
  pub holds :
      (peek m.bytes a (length replacement) ≡ expected)
      ⊎ (peek m.bytes a (length replacement) ≡ replacement)
  pub region : OneRegion os m.pages a (length replacement)
  pub page : WithinPage a (length replacement)

-- Later pages keep what earlier ones give a range in one page.
abbrev pub PagesKept : {Pages : Type 0} → Os Pages → Pages → Pages → Type 0
PagesKept os p p' = (b k : ℕ) → 0 < k → WithinPage b k → OneRegion os p b k → OneRegion os p' b k

-- The write is made and the pages keep what they gave, or Windows refuses one of its calls, and
-- that is the error.
abbrev pub IsWritten :
    {Pages : Type 0}
    → Os Pages
    → Machine Pages
    → ℕ
    → ℕ
    → Checked WriteState × Machine Pages
    → Type 0
IsWritten os m a n out =
    ((out.0 ≡ ok applied) × PagesKept os m.pages out.1.pages)
    ⊎ ((r : Refuses os m.pages a n) × (out.0 ≡ err (refusal_error os m.pages a n r)))

classified :
    (a : ℕ) (expected replacement held : List ℕ)
    → (held ≡ expected) ⊎ (held ≡ replacement)
    → (s : WriteState) × (classify_bytes a expected replacement held ≡ ok s)
unfolding classify_bytes
classified a expected replacement held (inr same) =
    (already_applied, rw same (rw (list_eq_refl replacement)))
classified a expected replacement held (inl same) =
    elim (Bool-cases (list_eq expected replacement)) [
      | inl equal ↦ (already_applied, rw same (rw equal))
      | inr unequal ↦ (applied, rw same (rw unequal (rw (list_eq_refl expected))))
    ]

ready_lengths :
    (expected replacement : List ℕ)
    → length expected ≡ length replacement
    → 0 < length replacement
    → validate_lengths expected replacement ≡ ok tt
unfolding validate_lengths
ready_lengths expected [] same positive = absurd (omega arith)
ready_lengths expected (x ∷ xs) same positive = ground arith

module _ {Pages : Type 0} ⦃os : Os Pages⦄ (laws : ProtectLaws os) where
  region_fits : (p : Pages) (a n : ℕ) → OneRegion os p a n → a + n < usize_mod
  region_fits p a n one = omega (arith, one.ends, laws.queries.fits p a one.region one.found)

  one_byte : (p : Pages) (a n b : ℕ) → OneRegion os p a n → InRange a n b → IsReadable p b
  one_byte p a n b one (lo, hi) =
      let covers = laws.queries.covers p a one.region one.found in
      let (s, found, state, protection) =
        laws.queries.uniform p a b one.region one.found
          (omega (arith, covers.0, lo), omega (arith, one.ends, hi)) in
      (s, found, state ∙ one.committed, ap (is_refused os.flags) protection ∙ one.allowed)

  pub read_region :
      (m : Machine Pages) (a n : ℕ)
      → OneRegion os m.pages a n
      → read_bytes m a n ≡ ok (peek m.bytes a n)
  read_region m a n one =
      (read_bytes_iff laws.queries m a n (peek m.bytes a n) (region_fits m.pages a n one)).1
        (refl, λ b inside. one_byte m.pages a n b one inside)

  -- The destination validates as the bytes that it holds say.
  pub ready_valid :
      (m : Machine Pages) (a : ℕ) (expected replacement : List ℕ)
      → IsReady os m a expected replacement
      → (s : WriteState) × (validate_bytes m a expected replacement ≡ ok s)
  ready_valid m a expected replacement r =
      let (s, class) =
        classified a expected replacement (peek m.bytes a (length replacement)) r.holds in
      (
        s,
        unfold validate_bytes in
            rw (ready_lengths expected replacement r.lengths r.some_bytes)
              (rw (r.lengths, read_region m a (length replacement) r.region) class),
      )

  pub writable :
      (p : Pages) (a n : ℕ)
      → OneRegion os p a n
      → (protection : ℕ) × IsWritable os.flags protection
        × (writable_protection_for_single_region p a n ≡ ok protection)
  unfolding writable_protection_for_single_region query_readable
  writable p a n one =
      let base = bit_and one.region.protect 0xFF in
      let fits = region_fits p a n one in
      let small = laws.queries.fits p a one.region one.found in
      elim (Bool-cases (
        base == os.flags.page_execute_read
        || base == os.flags.page_execute_readwrite
        || base == os.flags.page_execute_writecopy)) [
          | inl executable ↦ (
            os.flags.page_execute_readwrite,
            inl refl,
            ground (arith, one.found, one.committed, one.allowed, one.ends),
          )
          | inr plain ↦ (
            os.flags.page_readwrite,
            inr refl,
            ground (arith, one.found, one.committed, one.allowed, one.ends),
          )
        ]

  -- A range that was readable is so behind the write, byte by byte.
  read_after :
      (p p' : Pages) (mem : Bytes) (a n : ℕ)
      → PagesKept os p p'
      → 0 < n
      → WithinPage a n
      → OneRegion os p a n
      → read_bytes (record { bytes = mem; pages = p' }) a n ≡ ok (peek mem a n)
  read_after p p' mem a n kept positive page one =
      read_region (record { bytes = mem; pages = p' }) a n (kept a n positive page one)

  -- The call once the pages are writable and their old protection is known.
  unprotected-IsWritten :
      (m : Machine Pages) (a : ℕ) (replacement : List ℕ) (protection old : ℕ)
      → OneRegion os m.pages a (length replacement)
      → 0 < length replacement
      → WithinPage a (length replacement)
      → IsWritable os.flags protection
      → (os.virtual_protect m.pages a (length replacement) protection).1 ≡ some old
      → IsWritten os m a (length replacement) (
          write_unprotected m a replacement
            (os.virtual_protect m.pages a (length replacement) protection).0
            (some old))
  unfolding write_unprotected verify_write
  unprotected-IsWritten m a replacement protection old one positive page may granted =
      let n = length replacement in
      let p1 = (os.virtual_protect m.pages a n protection).0 in
      let p2 = (os.virtual_protect p1 a n old).0 in
      let p3 = (os.flush_instruction_cache p2 a n).0 in
      elim (Option-cases (os.virtual_protect p1 a n old).1) [
        | inl refused ↦ inr (refuses_restore protection old may granted refused, rw refused refl)
        | inr (last, restored) ↦ elim (Bool-cases (os.flush_instruction_cache p2 a n).1) [
          | inr refused ↦ inr (
            refuses_flush protection old last may granted restored refused,
            rw restored (rw refused refl),
          )
          | inl flushed ↦
              let kept : PagesKept os m.pages p3 = λ b k several within_page there.
                laws.flush_keeps p2 a n b k (
                  laws.keeps m.pages a n protection old last one positive granted restored b k
                    several within_page there) in
              let read =
                read_after m.pages p3 (poke m.bytes a replacement) a n kept positive page one in
              inl (
                rw restored (
                    rw flushed (
                      rw read
                        (rw (peek-poke m.bytes a replacement) (rw (list_eq_refl replacement))))),
                kept,
              )
        ]
      ]

  region-IsWritten :
      (m : Machine Pages) (a : ℕ) (replacement : List ℕ) (protection : ℕ)
      → OneRegion os m.pages a (length replacement)
      → 0 < length replacement
      → WithinPage a (length replacement)
      → IsWritable os.flags protection
      → IsWritten os m a (length replacement) (write_region m a replacement (ok protection))
  unfolding write_region
  region-IsWritten m a replacement protection one positive page may =
      let call = os.virtual_protect m.pages a (length replacement) protection in
      elim (Option-cases call.1) [
        | inl refused ↦
            inr (refuses_write protection may refused, unfold write_unprotected in rw refused refl)
        | inr (old, granted) ↦
            let made =
              unprotected-IsWritten m a replacement protection old one positive page may granted in
            subst
              (λ o.
                IsWritten os m a (length replacement) (write_unprotected m a replacement call.0 o))
              (sym granted) made
      ]

  must_apply :
      (m : Machine Pages) (a : ℕ) (expected replacement : List ℕ) (s : WriteState)
      → Classifies m a expected replacement s
      → peek m.bytes a (length replacement) ≢ replacement
      → s ≡ applied
  must_apply m a expected replacement applied class differs = refl
  must_apply m a expected replacement already_applied class differs = absurd (differs class)

  -- Where `VirtualQuery` and `VirtualProtect` behave as documented, a destination that is ready and
  -- does not hold the replacement is written: the call reports `applied`, and the pages keep what
  -- they gave. Else Windows has refused one of the calls that the write makes, to change the
  -- protection of the pages, to put it back or to flush them, and the error reports that refusal.
  pub write_checked_succeeds :
      (m : Machine Pages) (a : ℕ) (expected replacement : List ℕ)
      → IsReady os m a expected replacement
      → peek m.bytes a (length replacement) ≢ replacement
      → IsWritten os m a (length replacement) (write_checked m a expected replacement)
  unfolding write_classified
  write_checked_succeeds m a expected replacement r differs =
      let (s, valid) = ready_valid m a expected replacement r in
      let class = (validate_bytes-ok m a expected replacement valid).0 in
      let (protection, may, chosen) = writable m.pages a (length replacement) r.region in
      let whole : write_checked m a expected replacement
          ≡ write_region m a replacement (ok protection) =
        write_checked_classified m a expected replacement
        ∙ rw (valid, must_apply m a expected replacement s class differs, write_classified)
            (rw chosen refl) in
      rw whole (region-IsWritten m a replacement protection r.region r.some_bytes r.page may)

  -- A destination that is ready and holds the replacement is found applied.
  pub write_checked_found :
      (m : Machine Pages) (a : ℕ) (expected replacement : List ℕ)
      → IsReady os m a expected replacement
      → peek m.bytes a (length replacement) ≡ replacement
      → write_checked m a expected replacement ≡ (ok already_applied, m)
  unfolding write_classified validate_bytes classify_bytes
  write_checked_found m a expected replacement r held =
      write_checked_classified m a expected replacement
      ∙ rw (ready_lengths expected replacement r.lengths r.some_bytes) (
          rw (r.lengths, read_region m a (length replacement) r.region)
            (rw held (rw (list_eq_refl replacement))))
