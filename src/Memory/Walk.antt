-- ===== src/Memory/Walk.antt =====
-- The loop `while cursor < end { .. cursor = region_end.min(end); }` of src/patches/memory.rs over
-- the regions of an address range.
use fc2_systemdetection.Prelude.{
  >>=-eq-ok, Bool-cases, Result, Result-cases, arith, dec_lt, err, false, if◌then◌else◌, inl, inr,
  le→ltb_false, ltb, lt→ltb, min, ok, refl, suc, true, zero, ℕ, ◌+◌, ◌<◌, ◌>>=◌, ◌≡◌, ◌≤◌,
}

-- `region` is the body up to the region's end. The fuel bounds the rounds; `lost` is the answer if
-- it ran out.
unfoldable pub walk {ℓ} : {E : Type ℓ} → (ℕ → Result E ℕ) → E → ℕ → ℕ → ℕ → Result E (Unit {0})
walk region lost end zero cursor = if ltb cursor end then err lost else ok tt
walk region lost end (suc fuel) cursor = elim (ltb cursor end) [
  | false ↦ ok tt
  | true ↦ region cursor >>= λ region_end. walk region lost end fuel (min region_end end)
]

module _ {ℓ} {E : Type ℓ} (region : ℕ → Result E ℕ) (advances : (c r : ℕ) → region c ≡ ok r → c < r)
    (end : ℕ) where
  -- Whatever fuel of at least the length of the range is given, the loop's answer is the same.
  pub walk_fuel :
      (lost lost' : E) (f g c : ℕ)
      → end ≤ c + f
      → end ≤ c + g
      → walk region lost end f c ≡ walk region lost' end g c
  unfolding walk
  walk_fuel lost lost' zero zero c hf hg = ground arith
  walk_fuel lost lost' zero (suc g) c hf hg = ground arith
  walk_fuel lost lost' (suc f) zero c hf hg = ground arith
  walk_fuel lost lost' (suc f) (suc g) c hf hg = elim (Bool-cases (ltb c end)) [
    | inr past ↦ rw (past, walk) refl
    | inl more ↦
        rw (more, walk)
          (elim (Result-cases (region c)) [
            | inr (e, failed) ↦ rw failed refl
            | inl (r, found) ↦ rw found (
                let further : c < r = advances c r found in
                walk_fuel lost lost' f g (min r end) (omega arith) (omega arith))
          ])
  ]

  -- After a successful walk each address of the range lies below the end of a region that the walk
  -- has accepted at an address not above it.
  pub walk_covers :
      (lost : E) (f c b : ℕ)
      → walk region lost end f c ≡ ok tt
      → c ≤ b
      → b < end
      → (d : ℕ) × (r : ℕ) × (region d ≡ ok r) × (d ≤ b) × (b < r)
  unfolding walk
  walk_covers lost zero c b h lo hi = ground arith
  walk_covers lost (suc f) c b h lo hi =
      let more : ltb c end ≡ true = ground arith in
      let (r, found, rest) = >>=-eq-ok (region c) _ (rw (more, walk) at h) in
      elim (dec_lt b r) [
        | yes below ↦ (c, r, found, lo, below)
        | no above ↦ walk_covers lost f (min r end) b rest (omega arith) hi
      ]

  -- If each address of the range starts a region that is accepted, the walk succeeds.
  pub walk_total :
      (lost : E) (f c : ℕ)
      → end ≤ c + f
      → ((d : ℕ) → c ≤ d → d < end → (r : ℕ) × (region d ≡ ok r))
      → walk region lost end f c ≡ ok tt
  unfolding walk
  walk_total lost zero c hf all = rw (le→ltb_false c end (omega arith))
  walk_total lost (suc f) c hf all = elim (dec_lt c end) [
    | no past ↦ rw (le→ltb_false c end (omega arith), walk) refl
    | yes more ↦
        let (r, found) = all c (omega arith) more in
        let further : c < r = advances c r found in
        rw (lt→ltb c end more, walk)
          (rw found
            (walk_total lost f (min r end) (omega arith) (λ d lo hi. all d (omega arith) hi)))
  ]

-- Two walks succeed together if their rounds accept the same regions.
pub walk_transfer {ℓ κ} :
    {E : Type ℓ} {F : Type κ} (f : ℕ → Result E ℕ) (g : ℕ → Result F ℕ)
    → ((c r : ℕ) → f c ≡ ok r → g c ≡ ok r)
    → (lost : E) (lost' : F) (end fuel c : ℕ) → walk f lost end fuel c ≡ ok tt
    → walk g lost' end fuel c ≡ ok tt
unfolding walk
walk_transfer f g same lost lost' end zero c h = elim (dec_lt c end) [
  | yes more ↦ absurd (ground (arith, rw (lt→ltb c end more) at h))
  | no past ↦ rw (le→ltb_false c end (omega arith))
]
walk_transfer f g same lost lost' end (suc fuel) c h = elim (dec_lt c end) [
  | no past ↦ rw (le→ltb_false c end (omega arith), walk) refl
  | yes more ↦
      let (r, found, rest) = >>=-eq-ok (f c) _ (rw (lt→ltb c end more, walk) at h) in
      rw (lt→ltb c end more, walk)
        (rw (same c r found) (walk_transfer f g same lost lost' end fuel (min r end) rest))
]
