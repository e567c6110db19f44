-- ===== src/Scan/Find.antt =====
-- The offsets of `Pattern::find_offsets` of src/patches/sigscan.rs.
use native.Mathlib.Nat.{le_refl}
use fc2_systemdetection.Prelude.{
  &&-true, Bool-cases, List, Member, Option, [], arith, drop, false, get_elem?, if◌then◌else◌, inl,
  inr, leb, length, length-drop, le→leb, le→ltb_false, ltb, none, refl, some, suc, sym, take, true,
  zero, ℕ, ◌+◌, ◌<◌, ◌==◌, ◌↔◌, ◌∙◌, ◌∷◌, ◌≡◌, ◌≤◌, ◌⊎◌,
}
use fc2_systemdetection.Scan.Pattern.{
  Pattern, find_offsets, len, matches, matching_offsets, windows,
}

-- Each byte that the pattern names stands at its place in the candidate.
abbrev pub Agrees : List (Option ℕ) → List ℕ → Type 0
Agrees pattern candidate =
    (i v : ℕ) → get_elem? pattern i ≡ some (some v) → get_elem? candidate i ≡ some v

-- The pattern lies inside the bytes at the offset, and agrees with them there.
pub record OccursAt (pattern : List (Option ℕ)) (bytes : List ℕ) (offset : ℕ) : Type 0 where
  pub inside : offset + length pattern ≤ length bytes
  pub agrees : Agrees pattern (drop offset bytes)

matches-Agrees :
    (es : List (Option ℕ)) (xs : List ℕ)
    → length es ≤ length xs
    → matches es xs ≡ true
    → Agrees es xs
unfolding matches
matches-Agrees [] xs long h i v named = cc
matches-Agrees (e ∷ es) [] long h i v named = absurd (omega arith)
matches-Agrees (none ∷ es) (x ∷ xs) long h zero v named = cc
matches-Agrees (none ∷ es) (x ∷ xs) long h (suc i) v named =
    matches-Agrees es xs (omega arith) h i v named
matches-Agrees (some b ∷ es) (x ∷ xs) long h zero v named = ground arith
matches-Agrees (some b ∷ es) (x ∷ xs) long h (suc i) v named =
    matches-Agrees es xs (omega arith) (&&-true (b == x) (matches es xs) h).1 i v named

Agrees-matches : (es : List (Option ℕ)) (xs : List ℕ) → Agrees es xs → matches es xs ≡ true
unfolding matches
Agrees-matches [] xs h = refl
Agrees-matches (e ∷ es) [] h = refl
Agrees-matches (none ∷ es) (x ∷ xs) h = Agrees-matches es xs (λ i. h (suc i))
Agrees-matches (some b ∷ es) (x ∷ xs) h =
    ground (arith, h 0 b refl, Agrees-matches es xs (λ i. h (suc i)))

matches-take :
    (es : List (Option ℕ)) (n : ℕ) (xs : List ℕ)
    → length es ≤ n
    → matches es (take n xs) ≡ matches es xs
unfolding matches
matches-take [] n xs h = refl
matches-take (e ∷ es) zero xs h = absurd (omega arith)
matches-take (e ∷ es) (suc n) [] h = refl
matches-take (e ∷ es) (suc n) (x ∷ xs) h = rw (matches-take es n xs (omega arith))

module _ (pattern : List (Option ℕ)) (size : ℕ) (positive : 0 < size) where
  -- The windows that are selected, from offset `k` on.
  record Selected (k : ℕ) (bytes : List ℕ) (offset : ℕ) : Type 0 where
    place : ℕ
    offset_is : offset ≡ k + place
    fits : place + size ≤ length bytes
    selected : matches pattern (take size (drop place bytes)) ≡ true

  Selected-cons : {k o : ℕ} (b : ℕ) (bs : List ℕ) → Selected (k + 1) bs o → Selected k (b ∷ bs) o
  Selected-cons b bs s = record {
    place = suc s.place;
    offset_is = omega (arith, s.offset_is);
    fits = omega (arith, s.fits);
    selected = s.selected;
  }

  Selected-head :
      {k o : ℕ} (b : ℕ) (bs : List ℕ)
      → o ≡ k
      → leb size (length (b ∷ bs)) ≡ true
      → matches pattern (take size (b ∷ bs)) ≡ true
      → Selected k (b ∷ bs) o
  Selected-head b bs e fits here = record {
    place = 0;
    offset_is = omega arith;
    fits = ground arith;
    selected = here;
  }

  -- The clause of `matching_offsets` at a window that fits.
  offsets_window :
      (k b : ℕ) (bs : List ℕ)
      → leb size (length (b ∷ bs)) ≡ true
      → let rest = matching_offsets pattern (k + 1) (windows size bs) in
        matching_offsets pattern k (windows size (b ∷ bs))
        ≡ (if matches pattern (take size (b ∷ bs)) then k ∷ rest else rest)
  unfolding matching_offsets windows
  offsets_window k b bs fits = rw (fits, windows) refl

  offsets_short :
      (k b : ℕ) (bs : List ℕ)
      → leb size (length (b ∷ bs)) ≡ false
      → matching_offsets pattern k (windows size (b ∷ bs)) ≡ []
  unfolding matching_offsets windows
  offsets_short k b bs short = rw (short, windows) refl

  offsets_sound :
      (k : ℕ) (bytes : List ℕ) (o : ℕ)
      → Member o (matching_offsets pattern k (windows size bytes))
      → Selected k bytes o
  offsets_sound k [] o h = absurd (unfold matching_offsets windows in h)
  offsets_sound k (b ∷ bs) o h = elim (Bool-cases (leb size (length (b ∷ bs)))) [
    | inr short ↦ absurd (rw (offsets_short k b bs short) at h)
    | inl fits ↦ elim (Bool-cases (matches pattern (take size (b ∷ bs)))) [
      | inr differs ↦
          Selected-cons b bs
            (offsets_sound (k + 1) bs o (rw (offsets_window k b bs fits, differs) at h))
      | inl here ↦
          let either : (o ≡ k) ⊎ Member o (matching_offsets pattern (k + 1) (windows size bs)) =
            rw (offsets_window k b bs fits, here) at h in
          elim either [
            | inl first ↦ Selected-head b bs first fits here
            | inr later ↦ Selected-cons b bs (offsets_sound (k + 1) bs o later)
          ]
    ]
  ]

  offsets_complete :
      (k : ℕ) (bytes : List ℕ) (place : ℕ)
      → place + size ≤ length bytes
      → matches pattern (take size (drop place bytes)) ≡ true
      → Member (k + place) (matching_offsets pattern k (windows size bytes))
  offsets_complete k [] place fits here = absurd (omega arith)
  offsets_complete k (b ∷ bs) zero fits here =
      rw (offsets_window k b bs (le→leb size (length (b ∷ bs)) (omega arith)), here)
        (inl (omega arith))
  offsets_complete k (b ∷ bs) (suc place) fits here =
      let later : Member (k + suc place) (matching_offsets pattern (k + 1) (windows size bs)) =
        let e : k + suc place ≡ k + 1 + place = omega arith in
        rw e (offsets_complete (k + 1) bs place (omega arith) here) in
      rw (offsets_window k b bs (le→leb size (length (b ∷ bs)) (omega arith)))
        (elim (Bool-cases (matches pattern (take size (b ∷ bs)))) [
          | inl first ↦ rw first (inr later)
          | inr differs ↦ rw differs later
        ])

-- For a pattern that is not empty, an offset is found exactly when the pattern occurs there.
pub find_offsets_iff :
    (p : Pattern) (bytes : List ℕ) (offset : ℕ)
    → 0 < len p
    → Member offset (find_offsets p bytes) ↔ OccursAt p.bytes bytes offset
unfolding find_offsets
find_offsets_iff p bytes offset positive = (sound, complete)
  where
    sound : Member offset (find_offsets p bytes) → OccursAt p.bytes bytes offset
    sound h = elim (Bool-cases (ltb (length bytes) (len p))) [
      | inl short ↦ absurd (rw short at h)
      | inr long ↦
          let s = offsets_sound p.bytes (len p) positive 0 bytes offset (rw long at h) in
          let e : offset ≡ s.place = omega (arith, s.offset_is) in
          let room : length p.bytes ≤ length (drop s.place bytes) =
            omega (arith, s.fits, length-drop s.place bytes) in
          rw e (record {
            inside = s.fits;
            agrees = matches-Agrees p.bytes (drop s.place bytes) room (
                sym (matches-take p.bytes (len p) (drop s.place bytes) (le_refl (len p)))
                ∙ s.selected);
          })
    ]

    complete : OccursAt p.bytes bytes offset → Member offset (find_offsets p bytes)
    complete h =
        let e : offset ≡ 0 + offset = omega arith in
        rw (le→ltb_false (length bytes) (len p) (omega (arith, h.inside))) (
          rw e (
            offsets_complete p.bytes (len p) positive 0 bytes offset h.inside (
              matches-take p.bytes (len p) (drop offset bytes) (le_refl (len p))
              ∙ Agrees-matches p.bytes (drop offset bytes) h.agrees)))
