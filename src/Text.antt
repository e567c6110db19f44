-- ===== src/Text.antt =====
-- The parts of Rust's `str` that config.rs and sigscan.rs use. A text is the list of its `char`s,
-- each by its code point.
pub mod Format
pub mod Words
use Prim.Native.Char.{code}
use fc2_systemdetection.Prelude.{
  Bool, List, Option, String, [], drop, false, if◌then◌else◌, leb, list_eq, map, none, reverse,
  some, ℕ, ◌&&◌, ◌++◌, ◌+◌, ◌==◌, ◌||◌, ◌∷◌,
}

abbrev pub Text : Type 0
Text = List ℕ

-- The chars of a literal.
abbrev pub codes : String → Text
codes String.[] = []
codes (String.◌∷◌ c s) = code c ∷ codes s

abbrev pub within : ℕ → ℕ → ℕ → Bool
within lo hi c = leb lo c && leb c hi

-- `char::is_whitespace`: the chars with the Unicode property White_Space.
unfoldable pub is_whitespace : ℕ → Bool
is_whitespace c =
    within 0x09 0x0D c
    || c == 0x20
    || c == 0x85
    || c == 0xA0
    || c == 0x1680
    || within 0x2000 0x200A c
    || c == 0x2028
    || c == 0x2029
    || c == 0x202F
    || c == 0x205F
    || c == 0x3000

-- `str::split_whitespace`: the words, given the part of a word that has been read.
abbrev pub push_word : Text → List Text → List Text
push_word [] words = words
push_word (c ∷ cs) words = (c ∷ cs) ∷ words

unfoldable pub words_from : Text → Text → List Text
words_from word [] = push_word word []
words_from word (c ∷ cs) =
    let rest = words_from (if is_whitespace c then [] else word ++ (c ∷ [])) cs in
    if is_whitespace c then push_word word rest else rest

unfoldable pub split_whitespace : Text → List Text
unfolding words_from is_whitespace
split_whitespace = words_from []

-- `str::trim_start_matches` of a set of chars
unfoldable pub trim_start_by : (ℕ → Bool) → Text → Text
trim_start_by p [] = []
trim_start_by p (c ∷ cs) = if p c then trim_start_by p cs else c ∷ cs

-- `str::trim`
unfoldable pub trim : Text → Text
unfolding trim_start_by is_whitespace
trim s = reverse (trim_start_by is_whitespace (reverse (trim_start_by is_whitespace s)))

-- `to_ascii_lowercase`, and `eq_ignore_ascii_case`
unfoldable pub lower_char : ℕ → ℕ
lower_char c = if within b'A' b'Z' c then c + 32 else c

unfoldable pub to_ascii_lowercase : Text → Text
unfolding lower_char
to_ascii_lowercase = map lower_char

unfoldable pub eq_ignore_ascii_case : Text → Text → Bool
unfolding to_ascii_lowercase
eq_ignore_ascii_case s t = list_eq (to_ascii_lowercase s) (to_ascii_lowercase t)

abbrev pub starts_with_char : ℕ → Text → Bool
starts_with_char c [] = false
starts_with_char c (d ∷ s) = c == d

abbrev pub ends_with_char : ℕ → Text → Bool
ends_with_char c s = starts_with_char c (reverse s)

-- `str::split_once` at the first char that satisfies a test; the halves are without that char.
unfoldable pub split_once : (ℕ → Bool) → Text → Option (Text × Text)
split_once p [] = none
split_once p (c ∷ cs) =
    let rest = split_once p cs in
    if p c then some ([], cs) else elim rest [ none ↦ none | some (a, b) ↦ some (c ∷ a, b) ]

-- `str::lines`: the pieces that end at a line feed or at the end of the text, each without a
-- carriage return before its line feed; a text that ends in a line feed has no empty last line.
abbrev pub drop_carriage_return : Text → Text
drop_carriage_return line =
    if ends_with_char b'\r' line then reverse (drop 1 (reverse line)) else line

unfoldable pub lines_from : Text → Text → List Text
lines_from line [] = push_word line []
lines_from line (c ∷ cs) =
    let rest = lines_from (if c == b'\n' then [] else line ++ (c ∷ [])) cs in
    if c == b'\n' then drop_carriage_return line ∷ rest else rest

unfoldable pub lines : Text → List Text
unfolding lines_from
lines = lines_from []
