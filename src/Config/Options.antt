-- ===== src/Config/Options.antt =====
-- `PatchConfig`, its defaults, and `parse` of src/patches/config.rs.
use fc2_systemdetection.Prelude.{
  Bool, List, Option, String, [], drop, false, if◌then◌else◌, is_empty, list_eq, none, not, reverse,
  some, true, ℕ, ◌&&◌, ◌++◌, ◌+◌, ◌==◌, ◌||◌, ◌∷◌,
}
use fc2_systemdetection.Text.{
  Text, codes, ends_with_char, eq_ignore_ascii_case, lines, split_once, starts_with_char,
  to_ascii_lowercase, trim, trim_start_by,
}

pub record PatchConfig : Type 0 where
  pub jackal_tapes : Bool
  pub devmode_always_on : Bool
  pub predecessor_tapes : Bool
  pub machetes : Bool
  pub no_blinking_items : Bool

-- `PatchConfig::default`
abbrev pub default : PatchConfig
default = record {
  jackal_tapes = true;
  devmode_always_on = true;
  predecessor_tapes = true;
  machetes = true;
  no_blinking_items = false;
}

-- The warnings of `parse`, each with its line number. `invalid_boolean` has the value and the key
-- that the message quotes, `unknown_option` the key.
pub data Warning : Type 0 where
  expected_key_value : ℕ → Warning
  invalid_boolean : ℕ → Text → Text → Warning
  unknown_option : ℕ → Text → Warning

unfoldable pub parse_bool : Text → Option Bool
unfolding to_ascii_lowercase
parse_bool value =
    let v = to_ascii_lowercase value in
    if list_eq v (codes "1")
      || list_eq v (codes "true")
      || list_eq v (codes "yes")
      || list_eq v (codes "on")
    then some true
    else if list_eq v (codes "0")
        || list_eq v (codes "false")
        || list_eq v (codes "no")
        || list_eq v (codes "off")
    then some false
    else none

-- The `match key.as_str()`; `none` for a key that is not known.
unfoldable pub set_option : Text → Bool → PatchConfig → Option PatchConfig
set_option key enabled config =
    if list_eq key (codes "jackal_tapes")
    then some (record config { jackal_tapes = enabled })
    else if list_eq key (codes "devmode_always_on")
    then some (record config { devmode_always_on = enabled })
    else if list_eq key (codes "predecessor_tapes")
    then some (record config { predecessor_tapes = enabled })
    else if list_eq key (codes "machetes")
    then some (record config { machetes = enabled })
    else if list_eq key (codes "no_blinking_items")
    then some (record config { no_blinking_items = enabled })
    else none

-- The variables of the loop.
pub record ParseState : Type 0 where
  pub config : PatchConfig
  pub warnings : List Warning
  pub in_patches_section : Bool

abbrev pub warn : Warning → ParseState → ParseState
warn w s = record s { warnings = s.warnings ++ (w ∷ []) }

-- `line[1..line.len() - 1]`, of a line that starts and ends with a bracket
abbrev pub between : Text → Text
between line = reverse (drop 1 (reverse (drop 1 line)))

abbrev pub is_comment_mark : ℕ → Bool
is_comment_mark c = c == b'#' || c == b';'

-- The value without a comment behind it.
unfoldable pub clean_value : Text → Text
unfolding split_once trim
clean_value raw_value = trim (elim (split_once is_comment_mark raw_value) [
  | none ↦ raw_value
  | some (value, comment) ↦ value
])

-- The last part of the body, for a line `raw_key = raw_value`.
unfoldable pub assign : ℕ → Text → Text → ParseState → ParseState
unfolding clean_value parse_bool set_option
assign line_number raw_key raw_value s =
    let key = to_ascii_lowercase (trim raw_key) in
    let value = clean_value raw_value in
    elim (parse_bool value) [
      | none ↦ warn (invalid_boolean line_number value key) s
      | some enabled ↦ elim (set_option key enabled s.config) [
        | none ↦ warn (unknown_option line_number key) s
        | some config ↦ record s { config = config }
      ]
    ]

-- The body of the loop, on a line that has been trimmed.
unfoldable pub step_line : ℕ → Text → ParseState → ParseState
unfolding assign eq_ignore_ascii_case split_once trim
step_line line_number line s =
    if is_empty line || starts_with_char b'#' line || starts_with_char b';' line
    then s
    else if starts_with_char b'[' line && ends_with_char b']' line
    then record s {
      in_patches_section = eq_ignore_ascii_case (trim (between line)) (codes "patches");
    }
    else if not s.in_patches_section
    then s
    else elim (split_once (λ c. c == b'=') line) [
      | none ↦ warn (expected_key_value line_number) s
      | some (raw_key, raw_value) ↦ assign line_number raw_key raw_value s
    ]

-- The loop over the lines, numbered from `line_number` on.
unfoldable pub parse_lines : ℕ → List Text → ParseState → ParseState
unfolding step_line trim
parse_lines line_number [] s = s
parse_lines line_number (raw_line ∷ rest) s =
    parse_lines (line_number + 1) rest (step_line line_number (trim raw_line) s)

abbrev pub parse_start : ParseState
parse_start = record { config = default; warnings = []; in_patches_section = true }

-- `parse`
unfoldable pub parse : Text → PatchConfig × List Warning
unfolding parse_lines lines trim_start_by
parse contents =
    let s = parse_lines 1 (lines (trim_start_by (λ c. c == 0xFEFF) contents)) parse_start in
    (s.config, s.warnings)

pub data ConfigSource : Type 0 where
  loaded missing_using_defaults : ConfigSource
  read_failed_using_defaults : String → ConfigSource

-- What `fs::read_to_string` returns: the text, or an error, of which the source asks whether its
-- kind is `NotFound`, and its text.
pub data FileRead : Type 0 where
  contents : Text → FileRead
  not_found : FileRead
  read_error : String → FileRead

-- A path is the list of its UTF-16 units.
pub record ConfigLoad : Type 0 where
  pub config : PatchConfig
  pub path : List ℕ
  pub source : ConfigSource
  pub warnings : List Warning

-- `ConfigLoad::load`, with `fs::read_to_string`.
unfoldable pub load : (List ℕ → FileRead) → List ℕ → ConfigLoad
unfolding parse
load read_to_string path = elim (read_to_string path) [
  | contents text ↦
      let (config, warnings) = parse text in
      record { config = config; path = path; source = loaded; warnings = warnings }
  | not_found ↦ record {
    config = default;
    path = path;
    source = missing_using_defaults;
    warnings = [];
  }
  | read_error error ↦ record {
    config = default;
    path = path;
    source = read_failed_using_defaults error;
    warnings = [];
  }
]
