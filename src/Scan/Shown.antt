-- ===== src/Scan/Shown.antt =====
-- The bytes that `format_bytes` of src/patches/memory.rs shows, read as a signature by
-- `Pattern::parse` of src/patches/sigscan.rs.
use fc2_systemdetection.Scan.Pattern
use fc2_systemdetection.Memory.Display.{format_bytes}
use fc2_systemdetection.Prelude.{
  All, Bool, Bool-cases, List, Option, [], arith, false, inl, inr, map, none, ok, refl, some, suc,
  true, zero, ℕ, ◌&&◌, ◌<◌, ◌==◌, ◌∷◌, ◌≡◌, ◌≢◌,
}
use fc2_systemdetection.Scan.Pattern.{
  Pattern, hex_digit, parse, parse_part, parse_parts, u8_digits, u8_from_hex,
}
use fc2_systemdetection.Text.{is_whitespace}
use fc2_systemdetection.Text.Format.{digits, hex, hex_padded}
use fc2_systemdetection.Text.Words.{is_word, split_whitespace-join}

-- A test of all numbers below a bound.
all_below : ℕ → (ℕ → Bool) → Bool
all_below zero p = true
all_below (suc n) p = p n && all_below n p

all_below_at : (n : ℕ) (p : ℕ → Bool) (k : ℕ) → all_below n p ≡ true → k < n → p k ≡ true
unfolding all_below
all_below_at zero p k h below = absurd (omega arith)
all_below_at (suc n) p k h below = elim (Bool-cases (k == n)) [
  | inl last ↦ let e : k ≡ n = ground arith in rw e (ground (arith, h))
  | inr earlier ↦ all_below_at n p k (ground (arith, h)) (ground arith)
]

abbrev is_byte : Option (Option ℕ) → ℕ → Bool
is_byte none b = false
is_byte (some none) b = false
is_byte (some (some x)) b = x == b

is_byte_lem : (o : Option (Option ℕ)) (b : ℕ) → is_byte o b ≡ true → o ≡ some (some b)
is_byte_lem none b h = cc
is_byte_lem (some none) b h = cc
is_byte_lem (some (some x)) b h = let e : x ≡ b = ground (arith, h) in rw e refl

-- Each byte is shown as a word that is read as the byte.
shown_words : all_below 256 (λ b. is_word (hex_padded 2 b)) ≡ true
unfolding all_below hex_padded hex digits is_whitespace
shown_words = refl

shown_bytes : all_below 256 (λ b. is_byte (parse_part (hex_padded 2 b)) b) ≡ true
unfolding all_below hex_padded hex digits parse_part u8_from_hex u8_digits hex_digit
shown_bytes = refl

each_word :
    (bytes : List ℕ)
    → All (λ b. b < 256) bytes
    → All (λ w. is_word w ≡ true) (map (hex_padded 2) bytes)
each_word [] h = tt
each_word (b ∷ bytes) (small, h) =
    (all_below_at 256 (λ b. is_word (hex_padded 2 b)) b shown_words small, each_word bytes h)

parse_parts-map :
    (bytes : List ℕ)
    → All (λ b. b < 256) bytes
    → parse_parts (map (hex_padded 2) bytes) ≡ some (map some bytes)
unfolding parse_parts
parse_parts-map [] h = refl
parse_parts-map (b ∷ bytes) (small, h) =
    let here =
      is_byte_lem (parse_part (hex_padded 2 b)) b
        (all_below_at 256 (λ b. is_byte (parse_part (hex_padded 2 b)) b) b shown_bytes small) in
    rw (here, parse_parts) (rw (parse_parts-map bytes h) refl)

-- The text that an error shows for bytes that are not empty is the signature of these bytes:
-- `Pattern::parse` reads it as the pattern that has each of them, without a wildcard.
pub parse-format_bytes :
    (bytes : List ℕ)
    → bytes ≢ []
    → All (λ b. b < 256) bytes
    → Pattern.parse (format_bytes bytes) ≡ ok (record { bytes = map some bytes })
unfolding Pattern.parse format_bytes
parse-format_bytes [] some_bytes h = absurd (some_bytes refl)
parse-format_bytes (b ∷ bytes) some_bytes h =
    rw (split_whitespace-join (map (hex_padded 2) (b ∷ bytes)) (each_word (b ∷ bytes) h))
      (rw (parse_parts-map (b ∷ bytes) h) refl)
