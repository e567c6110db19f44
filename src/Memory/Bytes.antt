-- ===== src/Memory/Bytes.antt =====
-- The bytes of an address space, and the two uses of `ptr::copy_nonoverlapping` in the source:
-- copying a range out, and copying a slice in.
use fc2_systemdetection.Prelude.{
  Bool-cases, List, [], ap, ap₂, arith, dec_lt, fun_ext, get_or, get_or_past, if◌then◌else◌, inl,
  inr, leb, length, ltb, refl, suc, sym, zero, ℕ, ◌+◌, ◌-◌, ◌<◌, ◌∙◌, ◌∷◌, ◌≡◌, ◌≤◌, ◌⊎◌,
}

abbrev pub Bytes : Type 0
Bytes = ℕ → ℕ

-- Copy `length` bytes out of memory.
abbrev pub peek : Bytes → ℕ → ℕ → List ℕ
peek mem address zero = []
peek mem address (suc n) = mem address ∷ peek mem (address + 1) n

-- Copy a slice into memory.
unfoldable pub poke : Bytes → ℕ → List ℕ → Bytes
poke mem address xs b = if leb address b then get_or xs (b - address) (mem b) else mem b

-- `b` is one of the `n` addresses from `a` on.
abbrev pub InRange : ℕ → ℕ → ℕ → Type 0
InRange a n b = (a ≤ b) × (b < a + n)

pub length-peek : (mem : Bytes) (a n : ℕ) → length (peek mem a n) ≡ n
length-peek mem a zero = refl
length-peek mem a (suc n) = ap suc (length-peek mem (a + 1) n)

pub poke_outside :
    (mem : Bytes) (a : ℕ) (xs : List ℕ) (b : ℕ)
    → (b < a) ⊎ (a + length xs ≤ b)
    → poke mem a xs b ≡ mem b
unfolding poke
poke_outside mem a xs b (inl h) = ground arith
poke_outside mem a xs b (inr h) = ground (arith, get_or_past xs (b - a) (mem b))

-- Two memories that agree on a range have the same bytes there.
pub peek_congr :
    (mem mem' : Bytes) (a n : ℕ)
    → ((b : ℕ) → a ≤ b → b < a + n → mem b ≡ mem' b)
    → peek mem a n ≡ peek mem' a n
peek_congr mem mem' a zero h = refl
peek_congr mem mem' a (suc n) h =
    ap₂ ◌∷◌ (h a (omega arith) (omega arith))
      (peek_congr mem mem' (a + 1) n (λ b lo hi. h b (omega arith) (omega arith)))

poke_step :
    (mem : Bytes) (a x : ℕ) (xs : List ℕ) (b : ℕ)
    → a + 1 ≤ b
    → poke mem a (x ∷ xs) b ≡ poke mem (a + 1) xs b
unfolding poke
poke_step mem a x xs b h = let e : b - a ≡ suc (b - (a + 1)) = omega arith in rw e (ground arith)

poke_head : (mem : Bytes) (a x : ℕ) (xs : List ℕ) → poke mem a (x ∷ xs) a ≡ x
unfolding poke
poke_head mem a x xs = let e : a - a ≡ 0 = omega arith in rw e (ground arith)

-- What was written is read back.
pub peek-poke : (mem : Bytes) (a : ℕ) (xs : List ℕ) → peek (poke mem a xs) a (length xs) ≡ xs
peek-poke mem a [] = refl
peek-poke mem a (x ∷ xs) = ap₂ ◌∷◌ (poke_head mem a x xs) (
    peek_congr (poke mem a (x ∷ xs)) (poke mem (a + 1) xs) (a + 1) (length xs)
      (λ b lo hi. poke_step mem a x xs b lo)
    ∙ peek-poke mem (a + 1) xs)

-- Writing the bytes that are there changes nothing.
pub poke_same :
    (mem : Bytes) (a : ℕ) (xs : List ℕ) (b : ℕ)
    → peek mem a (length xs) ≡ xs
    → poke mem a xs b ≡ mem b
poke_same mem a [] b h = poke_outside mem a [] b (omega arith)
poke_same mem a (x ∷ xs) b h = elim (Bool-cases (leb (a + 1) b)) [
  | inl above ↦
      poke_step mem a x xs b (ground arith) ∙ poke_same mem (a + 1) xs b (ground (arith, h))
  | inr low ↦ elim (Bool-cases (ltb b a)) [
    | inl below ↦ poke_outside mem a (x ∷ xs) b (inl (ground arith))
    | inr here ↦ let e : b ≡ a = ground arith in rw e (ground (arith, poke_head mem a x xs, h))
  ]
]

get_or_within : (xs : List ℕ) (i d d' : ℕ) → i < length xs → get_or xs i d ≡ get_or xs i d'
get_or_within [] i d d' h = absurd (omega arith)
get_or_within (x ∷ xs) zero d d' h = refl
get_or_within (x ∷ xs) (suc i) d d' h = get_or_within xs i d d' (omega arith)

pub range_cases : (a n b : ℕ) → InRange a n b ⊎ ((b < a) ⊎ (a + n ≤ b))
range_cases a n b = elim (dec_lt b a) [
  | yes below ↦ inr (inl below)
  | no from ↦ elim (dec_lt b (a + n)) [
    | yes inside ↦ inl (omega arith, inside)
    | no above ↦ inr (inr (omega arith))
  ]
]

-- The second of two writes to one range covers the first.
poke_again :
    (mem : Bytes) (a : ℕ) (xs ys : List ℕ) (b : ℕ)
    → length xs ≡ length ys
    → poke (poke mem a xs) a ys b ≡ poke mem a ys b
poke_again mem a xs ys b h = elim (range_cases a (length ys) b) [
  | inl inside ↦ unfold poke in ground (arith, get_or_within ys (b - a) (poke mem a xs b) (mem b))
  | inr out ↦
      poke_outside (poke mem a xs) a ys b out
      ∙ poke_outside mem a xs b (rw h out)
      ∙ sym (poke_outside mem a ys b out)
]

-- Writing back what a range held undoes a write to it.
pub poke_undo :
    (mem : Bytes) (a : ℕ) (xs ys : List ℕ)
    → length xs ≡ length ys
    → peek mem a (length ys) ≡ ys
    → poke (poke mem a xs) a ys ≡ mem
poke_undo mem a xs ys h held = fun_ext λ b. poke_again mem a xs ys b h ∙ poke_same mem a ys b held

-- No address is in both ranges.
abbrev pub Disjoint : ℕ → ℕ → ℕ → ℕ → Type 0
Disjoint a n b k = (c : ℕ) → InRange a n c → InRange b k c → ⊥

poke_inside :
    (mem mem' : Bytes) (a : ℕ) (xs : List ℕ) (c : ℕ)
    → InRange a (length xs) c
    → poke mem a xs c ≡ poke mem' a xs c
unfolding poke
poke_inside mem mem' a xs c inside = ground (arith, get_or_within xs (c - a) (mem c) (mem' c))

-- Writes to disjoint ranges can be made in either order.
pub poke_comm :
    (mem : Bytes) (a b : ℕ) (xs ys : List ℕ)
    → Disjoint a (length xs) b (length ys)
    → poke (poke mem a xs) b ys ≡ poke (poke mem b ys) a xs
poke_comm mem a b xs ys apart = fun_ext at
  where
    at : (c : ℕ) → poke (poke mem a xs) b ys c ≡ poke (poke mem b ys) a xs c
    at c = elim (range_cases a (length xs) c) [
      | inl in_a ↦ elim (range_cases b (length ys) c) [
        | inl in_b ↦ absurd (apart c in_a in_b)
        | inr out_b ↦
            poke_outside (poke mem a xs) b ys c out_b ∙ poke_inside mem (poke mem b ys) a xs c in_a
      ]
      | inr out_a ↦ elim (range_cases b (length ys) c) [
        | inl in_b ↦
            poke_inside (poke mem a xs) mem b ys c in_b
            ∙ sym (poke_outside (poke mem b ys) a xs c out_a)
        | inr out_b ↦
            poke_outside (poke mem a xs) b ys c out_b
            ∙ poke_outside mem a xs c out_a
            ∙ sym (poke_outside mem b ys c out_b)
            ∙ sym (poke_outside (poke mem b ys) a xs c out_a)
      ]
    ]

-- A write leaves a range that is disjoint from it as it was.
pub peek-poke_apart :
    (mem : Bytes) (a n b : ℕ) (ys : List ℕ)
    → Disjoint a n b (length ys)
    → peek (poke mem b ys) a n ≡ peek mem a n
peek-poke_apart mem a n b ys apart = peek_congr (poke mem b ys) mem a n at
  where
    at : (c : ℕ) → a ≤ c → c < a + n → poke mem b ys c ≡ mem c
    at c lo hi = elim (range_cases b (length ys) c) [
      | inl in_b ↦ absurd (apart c (lo, hi) in_b)
      | inr out_b ↦ poke_outside mem b ys c out_b
    ]

pub poke-nil : (mem : Bytes) (a : ℕ) → poke mem a [] ≡ mem
poke-nil mem a = fun_ext λ c. poke_same mem a [] c refl
