-- ===== src/Scan/Pattern.antt =====
-- `Pattern` of src/patches/sigscan.rs: parsing a signature, and finding it in the bytes of a section.
use fc2_systemdetection.Prelude.{
  Bool, List, Option, Result, [], err, false, if◌then◌else◌, is_empty, leb, length, list_eq, ltb,
  none, ok, some, take, true, ℕ, ◌&&◌, ◌*◌, ◌+◌, ◌-◌, ◌==◌, ◌||◌, ◌∷◌,
}
use fc2_systemdetection.Scan.Error.{ScanError, invalid_pattern}
use fc2_systemdetection.Text.{Text, codes, split_whitespace, within}

pub record Pattern : Type 0 where
  pub bytes : List (Option ℕ)

unfoldable pub hex_digit : ℕ → Option ℕ
hex_digit c =
    if within b'0' b'9' c
    then some (c - b'0')
    else if within b'a' b'f' c
    then some (c - b'a' + 10)
    else if within b'A' b'F' c
    then some (c - b'A' + 10)
    else none

-- The digits of `u8::from_str_radix(part, 16)`; `none` for a char that is no digit, and where the
-- value leaves the `u8`.
unfoldable pub u8_digits : ℕ → Text → Option ℕ
u8_digits value [] = some value
u8_digits value (c ∷ cs) = elim (hex_digit c) [
  | none ↦ none
  | some d ↦ elim (ltb (value * 16 + d) 256) [ true ↦ u8_digits (value * 16 + d) cs | false ↦ none ]
]

-- `u8::from_str_radix(part, 16)`, which takes a leading plus sign.
unfoldable pub u8_from_hex : Text → Option ℕ
unfolding u8_digits hex_digit
u8_from_hex [] = none
u8_from_hex (c ∷ []) = u8_digits 0 (c ∷ [])
u8_from_hex (c ∷ d ∷ cs) = if c == b'+' then u8_digits 0 (d ∷ cs) else u8_digits 0 (c ∷ d ∷ cs)

-- One part of the text: a wildcard or a byte.
unfoldable pub parse_part : Text → Option (Option ℕ)
unfolding u8_from_hex
parse_part part =
    if list_eq part (codes "??") || list_eq part (codes "?")
    then some none
    else elim (u8_from_hex part) [ none ↦ none | some byte ↦ some (some byte) ]

unfoldable pub parse_parts : List Text → Option (List (Option ℕ))
unfolding parse_part
parse_parts [] = some []
parse_parts (part ∷ parts) =
    let rest = parse_parts parts in
    elim (parse_part part) [
      | none ↦ none
      | some byte ↦ elim rest [ none ↦ none | some bytes ↦ some (byte ∷ bytes) ]
    ]

-- `Pattern::parse`
unfoldable pub parse : Text → Result ScanError Pattern
unfolding split_whitespace parse_parts
parse pattern = elim (parse_parts (split_whitespace pattern)) [
  | none ↦ err (invalid_pattern pattern)
  | some bytes ↦
      if is_empty bytes then err (invalid_pattern pattern) else ok (record { bytes = bytes })
]

-- `Pattern::len`
abbrev pub len : Pattern → ℕ
len p = length p.bytes

-- `expected.is_none_or(|expected| expected == *actual)`
abbrev pub byte_matches : Option ℕ → ℕ → Bool
byte_matches none actual = true
byte_matches (some byte) actual = byte == actual

-- `Pattern::matches`, on the bytes of the pattern: `zip` stops at the shorter list.
unfoldable pub matches : List (Option ℕ) → List ℕ → Bool
matches [] candidate = true
matches (e ∷ es) [] = true
matches (e ∷ es) (a ∷ as') = byte_matches e a && matches es as'

-- `slice::windows` of a positive size
unfoldable pub windows : ℕ → List ℕ → List (List ℕ)
windows size [] = []
windows size (b ∷ bs) =
    let rest = windows size bs in
    if leb size (length (b ∷ bs)) then take size (b ∷ bs) ∷ rest else []

-- `enumerate().filter_map(..)`, from the given offset on
unfoldable pub matching_offsets : List (Option ℕ) → ℕ → List (List ℕ) → List ℕ
unfolding matches
matching_offsets pattern offset [] = []
matching_offsets pattern offset (w ∷ ws) =
    let rest = matching_offsets pattern (offset + 1) ws in
    if matches pattern w then offset ∷ rest else rest

-- `Pattern::find_offsets`
unfoldable pub find_offsets : Pattern → List ℕ → List ℕ
unfolding windows matching_offsets
find_offsets p bytes =
    if ltb (length bytes) (len p) then [] else matching_offsets p.bytes 0 (windows (len p) bytes)
