-- ===== src/Text/Format.antt =====
-- The parts of Rust's `format!` that the sources use: decimal and upper-case hexadecimal numbers,
-- and `join`.
use fc2_systemdetection.Prelude.{
  List, [], false, if◌then◌else◌, length, ltb, suc, true, zero, ℕ, ◌%◌, ◌++◌, ◌+◌, ◌-◌, ◌/◌, ◌∷◌,
}
use fc2_systemdetection.Text.{Text, codes}

abbrev pub digit_char : ℕ → ℕ
digit_char d = if ltb d 10 then b'0' + d else b'A' + (d - 10)

-- The digits of a number; the fuel bounds their count.
unfoldable pub digits : ℕ → ℕ → ℕ → Text
digits base zero n = []
digits base (suc fuel) n = elim (ltb n base) [
  | true ↦ digit_char n ∷ []
  | false ↦ digits base fuel (n / base) ++ (digit_char (n % base) ∷ [])
]

-- `{}` and `{:X}` of an integer; a `u64` has at most 20 decimal and 16 hexadecimal digits.
unfoldable pub decimal : ℕ → Text
unfolding digits
decimal n = digits 10 20 n

unfoldable pub hex : ℕ → Text
unfolding digits
hex n = digits 16 16 n

abbrev pub repeat_char : ℕ → ℕ → Text
repeat_char c zero = []
repeat_char c (suc n) = c ∷ repeat_char c n

-- `{:0width$X}`
unfoldable pub hex_padded : ℕ → ℕ → Text
unfolding hex
hex_padded width n = let s = hex n in repeat_char b'0' (width - length s) ++ s

-- `0x{:08X}`
unfoldable pub hex_address : ℕ → Text
unfolding hex_padded
hex_address n = codes "0x" ++ hex_padded 8 n

-- `join`
unfoldable pub join : Text → List Text → Text
join separator [] = []
join separator (s ∷ []) = s
join separator (s ∷ t ∷ rest) = s ++ (separator ++ join separator (t ∷ rest))

-- The parts of a text, one behind the other.
abbrev pub concat : List Text → Text
concat [] = []
concat (s ∷ rest) = s ++ concat rest
