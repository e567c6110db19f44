-- ===== src/Memory/Reads.antt =====
-- The results of `read_bytes` and `validate_bytes` of src/patches/memory.rs.
use native.Mathlib.Nat.{le_trans}
use fc2_systemdetection.Memory.Bytes.{InRange, peek}
use fc2_systemdetection.Memory.Checked.{
  MemoryError, WriteState, already_applied, applied, classify_bytes, is_refused, next_region,
  query_failed, query_readable, read_bytes, validate_bytes, validate_lengths,
  validate_readable_range,
}
use fc2_systemdetection.Memory.Os.{Machine, Os, QueryLaws, Region}
use fc2_systemdetection.Memory.Walk.{walk, walk_covers, walk_fuel, walk_total}
use fc2_systemdetection.Prelude.{
  >>=-eq-ok, List, Option-cases, [], ap, arith, dec_lt, false, inl, inr, length, list_eq_iff, ok,
  some, sym, usize_mod, ℕ, ◌+◌, ◌<◌, ◌↔◌, ◌∙◌, ◌∷◌, ◌≡◌, ◌≢◌, ◌≤◌, ◌⊎◌,
}

pub validate_lengths-ok :
    (expected replacement : List ℕ)
    → validate_lengths expected replacement ≡ ok tt
    → (length expected ≡ length replacement) × (0 < length replacement)
unfolding validate_lengths
validate_lengths-ok expected [] h = ground arith
validate_lengths-ok expected (x ∷ xs) h = ground arith

module _ {Pages : Type 0} ⦃os : Os Pages⦄ where
  -- Windows reports the address as committed, readable and unguarded.
  abbrev pub IsReadable : Pages → ℕ → Type 0
  IsReadable pages b =
      (s : Region) × (os.virtual_query pages b ≡ some s)
      × (s.state ≡ os.flags.mem_commit)
      × (is_refused os.flags s.protect ≡ false)

  pub next_region_advances : (pages : Pages) (c r : ℕ) → next_region pages c ≡ ok r → c < r
  unfolding next_region
  next_region_advances pages c r h = ground arith

  -- What an accepted round says of the region it found.
  next_region_found :
      (pages : Pages) (c r : ℕ)
      → next_region pages c ≡ ok r
      → (s : Region) × (os.virtual_query pages c ≡ some s)
        × (s.state ≡ os.flags.mem_commit)
        × (is_refused os.flags s.protect ≡ false)
        × (r ≡ s.base_address + s.region_size)
  unfolding next_region query_readable
  next_region_found pages c r h = elim (Option-cases (os.virtual_query pages c)) [
    | inl failed ↦ ground arith
    | inr (s, found) ↦ (s, found, ground arith, ground arith, ground arith)
  ]

  next_region_total :
      (laws : QueryLaws os) (pages : Pages) (c : ℕ)
      → IsReadable pages c
      → (r : ℕ) × (next_region pages c ≡ ok r)
  unfolding next_region query_readable
  next_region_total laws pages c (s, found, committed, allowed) = (
    s.base_address + s.region_size,
    ground (arith, laws.fits pages c s found, laws.covers pages c s found),
  )

  -- The loop has fuel enough: more rounds than the length of the range, and another answer at
  -- the end of the fuel, change nothing.
  pub validate_readable_range_fuel :
      (pages : Pages) (address length fuel : ℕ) (lost : MemoryError)
      → length ≤ fuel
      → walk (next_region pages) lost (address + length) fuel address
        ≡ walk (next_region pages) (query_failed address) (address + length) length address
  validate_readable_range_fuel pages address length fuel lost h =
      walk_fuel (next_region pages) (next_region_advances pages) (address + length) lost
        (query_failed address) fuel length address (omega arith) (omega arith)

  range_walk :
      (pages : Pages) (address length : ℕ)
      → validate_readable_range pages address length ≡ ok tt
      → (length ≡ 0)
        ⊎ ((address + length < usize_mod)
            × (walk (next_region pages) (query_failed address) (address + length) length address
                ≡ ok tt))
  unfolding validate_readable_range
  range_walk pages address length h = ground arith

  range_sound :
      (laws : QueryLaws os) (pages : Pages) (address length : ℕ)
      → validate_readable_range pages address length ≡ ok tt
      → (b : ℕ) → InRange address length b
      → IsReadable pages b
  range_sound laws pages address length h b (lo, hi) = elim (range_walk pages address length h) [
    | inl nothing ↦ absurd (omega arith)
    | inr (fits, walked) ↦
        let (d, r, found, below, above) =
          walk_covers (next_region pages) (next_region_advances pages) (address + length)
            (query_failed address) length address b walked lo hi in
        let (s, asked, committed, allowed, end_is) = next_region_found pages d r found in
        let (t, asked_b, same_state, same_protect) =
          laws.uniform pages d b s asked
            (le_trans (laws.covers pages d s asked).0 below, rw (← end_is) above) in
        (t, asked_b, same_state ∙ committed, ap (is_refused os.flags) same_protect ∙ allowed)
  ]

  range_complete :
      (laws : QueryLaws os) (pages : Pages) (address length : ℕ)
      → address + length < usize_mod
      → ((b : ℕ) → InRange address length b → IsReadable pages b)
      → validate_readable_range pages address length ≡ ok tt
  unfolding validate_readable_range
  range_complete laws pages address length fits all = elim (dec_lt 0 length) [
    | no none_asked ↦ let e : length ≡ 0 = omega arith in rw e
    | yes some_asked ↦
        let walked =
          walk_total (next_region pages) (next_region_advances pages) (address + length)
            (query_failed address) length address (omega arith)
            (λ d lo hi. next_region_total laws pages d (all d (lo, hi))) in
        ground (arith, walked)
  ]

  -- Where `VirtualQuery` behaves as documented, `read_bytes` of a range that does not overflow
  -- returns bytes exactly when Windows reports every address of the range as committed, readable
  -- and unguarded, and they are those in memory.
  pub read_bytes_iff :
      (laws : QueryLaws os) (m : Machine Pages) (address length : ℕ) (found : List ℕ)
      → address + length < usize_mod
      → (read_bytes m address length ≡ ok found) ↔ (
          (found ≡ peek m.bytes address length)
          × ((b : ℕ) → InRange address length b → IsReadable m.pages b))
  unfolding read_bytes
  read_bytes_iff laws m address length found fits = (
    λ h.
        let (u, valid, same) = >>=-eq-ok (validate_readable_range m.pages address length) _ h in
        (ground arith, range_sound laws m.pages address length valid),
    λ h. rw (range_complete laws m.pages address length fits h.1) (ap ok (sym h.0)),
  )

  pub read_bytes-eq-peek :
      (m : Machine Pages) (address length : ℕ) {found : List ℕ}
      → read_bytes m address length ≡ ok found
      → found ≡ peek m.bytes address length
  unfolding read_bytes
  read_bytes-eq-peek m address length h = ground arith

  -- What a classification says of the bytes at the destination.
  abbrev pub Classifies : Machine Pages → ℕ → List ℕ → List ℕ → WriteState → Type 0
  Classifies m address expected replacement applied =
      (peek m.bytes address (length replacement) ≡ expected) × (expected ≢ replacement)
  Classifies m address expected replacement already_applied =
      peek m.bytes address (length replacement) ≡ replacement

  classify_bytes-ok :
      (m : Machine Pages) (address : ℕ) (expected replacement : List ℕ) (s : WriteState)
      → classify_bytes address expected replacement (peek m.bytes address (length replacement))
        ≡ ok s
      → Classifies m address expected replacement s
  unfolding classify_bytes
  classify_bytes-ok m address expected replacement applied h =
      let held = peek m.bytes address (length replacement) in
      ground (arith, list_eq_iff held replacement, list_eq_iff held expected)
  classify_bytes-ok m address expected replacement already_applied h =
      let held = peek m.bytes address (length replacement) in
      ground (arith, list_eq_iff held replacement, list_eq_iff held expected)

  -- A validated destination holds the replacement, or else the expected bytes; the slices have one
  -- length, which is not zero.
  pub validate_bytes-ok :
      (m : Machine Pages) (address : ℕ) (expected replacement : List ℕ) {s : WriteState}
      → validate_bytes m address expected replacement ≡ ok s
      → Classifies m address expected replacement s
        × (length expected ≡ length replacement)
        × (0 < length replacement)
  unfolding validate_bytes
  validate_bytes-ok m address expected replacement {s} h =
      let (u, lengths, rest) = >>=-eq-ok (validate_lengths expected replacement) _ h in
      let (actual, read, class) = >>=-eq-ok (read_bytes m address (length expected)) _ rest in
      let (same, some_bytes) = validate_lengths-ok expected replacement lengths in
      let held = read_bytes-eq-peek m address (length expected) read in
      (
        classify_bytes-ok m address expected replacement s (rw (← same, ← held) class),
        same,
        some_bytes,
      )
