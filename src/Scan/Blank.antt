-- ===== src/Scan/Blank.antt =====
-- Zeroed ranges of the mapping that `from_pe_file` of src/patches/sigscan.rs makes, and writes to them.
use fc2_systemdetection.Memory.Bytes.{Bytes, peek, peek-poke, peek-poke_apart, poke}
use fc2_systemdetection.Prelude.{
  List, [], ap, ap₂, arith, length, refl, suc, sym, zero, ℕ, ◌++◌, ◌+◌, ◌-◌, ◌∙◌, ◌∷◌, ◌≡◌, ◌≤◌,
}
use fc2_systemdetection.Scan.FileImage.{zeroed}

abbrev pub zeros : ℕ → List ℕ
zeros zero = []
zeros (suc n) = 0 ∷ zeros n

pub peek-zeroed : (a n : ℕ) → peek zeroed a n ≡ zeros n
peek-zeroed a zero = refl
peek-zeroed a (suc n) = ap (λ t. 0 ∷ t) (peek-zeroed (a + 1) n)

-- A range whose first part is written holds what was written, and then what it held.
peek_split : (mem : Bytes) (a k n : ℕ) → peek mem a (k + n) ≡ peek mem a k ++ peek mem (a + k) n
peek_split mem a zero n =
    let e : 0 + n ≡ n = omega arith in let f : a + 0 ≡ a = omega arith in rw (e, f) refl
peek_split mem a (suc k) n =
    let e : suc k + n ≡ suc (k + n) = omega arith in
    let f : a + suc k ≡ a + 1 + k = omega arith in
    rw (e, f) (ap (λ t. mem a ∷ t) (peek_split mem (a + 1) k n))

zeros_split : (k n : ℕ) → zeros (k + n) ≡ zeros k ++ zeros n
zeros_split zero n = let e : 0 + n ≡ n = omega arith in rw e refl
zeros_split (suc k) n =
    let e : suc k + n ≡ suc (k + n) = omega arith in rw e (ap (λ t. 0 ∷ t) (zeros_split k n))

-- A blank range of a mapping, cut off at its front.
blank_rest :
    (mem : Bytes) (a k n : ℕ) → peek mem a (k + n) ≡ zeros (k + n) → peek mem (a + k) n ≡ zeros n
blank_rest mem a zero n h =
    let e : 0 + n ≡ n = omega arith in let f : a + 0 ≡ a = omega arith in rw f (rw e at h)
blank_rest mem a (suc k) n h =
    let e : suc k + n ≡ suc (k + n) = omega arith in
    let f : a + suc k ≡ a + 1 + k = omega arith in
    let g : peek mem a (suc (k + n)) ≡ zeros (suc (k + n)) = rw e at h in
    rw f (blank_rest mem (a + 1) k n (cc g))

-- A write to the front of a blank range fills it up with zeros.
pub peek_filled :
    (mem : Bytes) (a n : ℕ) (xs : List ℕ)
    → length xs ≤ n
    → peek mem a n ≡ zeros n
    → peek (poke mem a xs) a n ≡ xs ++ zeros (n - length xs)
peek_filled mem a n xs small blank =
    let k = length xs in
    let rest = n - k in
    let e : n ≡ k + rest = omega (arith, small) in
    let whole : peek (poke mem a xs) a n ≡ peek (poke mem a xs) a (k + rest) =
      ap (peek (poke mem a xs) a) e in
    whole
    ∙ peek_split (poke mem a xs) a k rest
    ∙ ap₂ ◌++◌ (peek-poke mem a xs) (
        peek-poke_apart mem (a + k) rest a xs (λ c i j. omega (arith, i.0, j.1))
        ∙ blank_rest mem a k rest (sym (ap (peek mem a) e) ∙ blank ∙ ap zeros e))
