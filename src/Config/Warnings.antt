-- ===== src/Config/Warnings.antt =====
-- The line numbers of the warnings of `parse` of src/patches/config.rs.
use fc2_systemdetection.Config.Options.{
  ParseState, Warning, assign, between, clean_value, expected_key_value, invalid_boolean, parse,
  parse_bool, parse_lines, parse_start, set_option, step_line, unknown_option, warn,
}
use fc2_systemdetection.Prelude.{
  Bool, List, Option, Option-cases, [], arith, false, if◌then◌else◌, inl, inr, is_empty, length,
  none, not, refl, some, true, ℕ, ◌&&◌, ◌++◌, ◌+◌, ◌<◌, ◌==◌, ◌||◌, ◌∷◌, ◌≡◌, ◌≤◌, ◌⊎◌,
}
use fc2_systemdetection.Text.{
  Text, codes, ends_with_char, eq_ignore_ascii_case, lines, split_once, starts_with_char, trim,
  trim_start_by,
}

abbrev pub number : Warning → ℕ
number (expected_key_value n) = n
number (invalid_boolean n value key) = n
number (unknown_option n key) = n

-- The line numbers ascend, from `low` on and below `high`.
abbrev pub AreNumbered : ℕ → ℕ → List Warning → Type 0
AreNumbered low high [] = Unit
AreNumbered low high (w ∷ ws) =
    (low ≤ number w) × (number w < high) × AreNumbered (number w + 1) high ws

AreNumbered-widen :
    (low high : ℕ) (ws : List Warning) → AreNumbered low high ws → AreNumbered low (high + 1) ws
AreNumbered-widen low high [] h = tt
AreNumbered-widen low high (w ∷ ws) (a, b, h) =
    (a, omega arith, AreNumbered-widen (number w + 1) high ws h)

AreNumbered-append :
    (low high : ℕ) (ws : List Warning) (w : Warning)
    → low ≤ high
    → number w ≡ high
    → AreNumbered low high ws
    → AreNumbered low (high + 1) (ws ++ (w ∷ []))
AreNumbered-append low high [] w below same h = (omega arith, omega arith, tt)
AreNumbered-append low high (v ∷ ws) w below same (a, b, h) =
    (a, omega arith, AreNumbered-append (number v + 1) high ws w (omega arith) same h)

-- A line adds no warning, or one with its number.
abbrev Warns : ℕ → ParseState → ParseState → Type 0
Warns n s s' =
    (s'.warnings ≡ s.warnings)
    ⊎ ((w : Warning) × (number w ≡ n) × (s'.warnings ≡ s.warnings ++ (w ∷ [])))

-- The tests of a line: the first and the third leave the state as it is.
step_line_tests :
    (n : ℕ) (ignored heading outside : Bool) (s s1 s2 : ParseState)
    → s1.warnings ≡ s.warnings
    → Warns n s s2
    → Warns n s (if ignored then s else if heading then s1 else if outside then s else s2)
step_line_tests n true heading outside s s1 s2 kept h = inl refl
step_line_tests n false true outside s s1 s2 kept h = inl kept
step_line_tests n false false true s s1 s2 kept h = inl refl
step_line_tests n false false false s s1 s2 kept h = h

assign-Warns :
    (n : ℕ) (raw_key raw_value : Text) (s : ParseState) → Warns n s (assign n raw_key raw_value s)
unfolding assign
assign-Warns n raw_key raw_value s = of _ _ (parse_bool (clean_value raw_value))
  where
    of :
        (key value : Text) (enabled : Option Bool)
        → Warns n s (elim enabled [
          | none ↦ warn (invalid_boolean n value key) s
          | some enabled ↦ elim (set_option key enabled s.config) [
            | none ↦ warn (unknown_option n key) s
            | some config ↦ record s { config = config }
          ]
        ])
    of key value none = inr (invalid_boolean n value key, refl, refl)
    of key value (some enabled) = elim (Option-cases (set_option key enabled s.config)) [
      | inl missing ↦ rw missing (inr (unknown_option n key, refl, refl))
      | inr (config, found) ↦ rw found (inl refl)
    ]

step_line-Warns : (n : ℕ) (line : Text) (s : ParseState) → Warns n s (step_line n line s)
unfolding step_line
step_line-Warns n line s =
    step_line_tests n (is_empty line || starts_with_char b'#' line || starts_with_char b';' line)
      (starts_with_char b'[' line && ends_with_char b']' line) (not s.in_patches_section) s
      (record s {
        in_patches_section = eq_ignore_ascii_case (trim (between line)) (codes "patches");
      })
      _ refl (of (split_once (λ c. c == b'=') line))
  where
    of :
        (parts : Option (Text × Text))
        → Warns n s (elim parts [
          | none ↦ warn (expected_key_value n) s
          | some (raw_key, raw_value) ↦ assign n raw_key raw_value s
        ])
    of none = inr (expected_key_value n, refl, refl)
    of (some (raw_key, raw_value)) = assign-Warns n raw_key raw_value s

parse_lines-AreNumbered :
    (n : ℕ) (ls : List Text) (s : ParseState)
    → 1 ≤ n
    → AreNumbered 1 n s.warnings
    → AreNumbered 1 (n + length ls) (parse_lines n ls s).warnings
unfolding parse_lines
parse_lines-AreNumbered n [] s positive h = let e : n + 0 ≡ n = omega arith in rw e h
parse_lines-AreNumbered n (l ∷ ls) s positive h =
    let e : n + length (l ∷ ls) ≡ n + 1 + length ls = omega arith in
    rw e (
      parse_lines-AreNumbered (n + 1) ls (step_line n (trim l) s) (omega arith)
        (elim (step_line-Warns n (trim l) s) [
          | inl same ↦ rw same (AreNumbered-widen 1 n s.warnings h)
          | inr (w, numbered, more) ↦
              rw more (AreNumbered-append 1 n s.warnings w positive numbered h)
        ]))

-- The warnings of `parse` come in the order of the lines, at most one for a line, and each has the
-- number of a line of the text, counted from 1.
pub parse-AreNumbered :
    (text : Text)
    → AreNumbered 1 (1 + length (lines (trim_start_by (λ c. c == 0xFEFF) text))) (parse text).1
unfolding parse
parse-AreNumbered text =
    parse_lines-AreNumbered 1 (lines (trim_start_by (λ c. c == 0xFEFF) text)) parse_start
      (omega arith) tt
