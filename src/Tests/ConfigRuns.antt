-- ===== src/Tests/ConfigRuns.antt =====
-- `parse` and `load` of src/patches/config.rs on texts.
use fc2_systemdetection.Config.Documents.{
  Item, key_jackal_tapes, key_machetes, other_heading, parse-render, patches_heading, render,
  setting,
}
use fc2_systemdetection.Config.Options.{
  assign, clean_value, contents, default, expected_key_value, invalid_boolean, load, loaded,
  missing_using_defaults, not_found, parse, parse_bool, parse_lines, set_option, step_line,
  unknown_option,
}
use fc2_systemdetection.Config.Warnings.{AreNumbered, parse-AreNumbered}
use fc2_systemdetection.Prelude.{List, [], false, length, refl, true, ◌+◌, ◌==◌, ◌∷◌, ◌≡◌}
use fc2_systemdetection.Text.{
  Text, codes, eq_ignore_ascii_case, is_whitespace, lines, lines_from, lower_char, split_once,
  to_ascii_lowercase, trim, trim_start_by,
}

-- The text of the test `parses_patch_section_and_common_boolean_spellings` of config.rs.
spellings :
    parse (
      0xFEFF
      ∷ codes
          "; comment\n [patches]\n jackal_tapes = off\n devmode_always_on = 0\n predecessor_tapes = YES\n machetes = true ; inline comment\n no_blinking_items = on # inline comment\n [ignored]\n jackal_tapes = true")
    ≡ (
      record {
        jackal_tapes = false;
        devmode_always_on = false;
        predecessor_tapes = true;
        machetes = true;
        no_blinking_items = true;
      },
      [],
    )
unfolding parse parse_lines lines lines_from step_line trim trim_start_by is_whitespace assign
    clean_value split_once to_ascii_lowercase lower_char parse_bool set_option eq_ignore_ascii_case
spellings = refl

-- The text of the test `invalid_lines_keep_defaults_and_return_warnings`.
abbrev invalid_text : Text
invalid_text = codes "[patches]\n jackal_tapes = perhaps\n unknown = true\n malformed"

invalid_lines : parse invalid_text ≡ (
  default,
  invalid_boolean 2 (codes "perhaps") (codes "jackal_tapes")
      ∷ unknown_option 3 (codes "unknown")
      ∷ expected_key_value 4
      ∷ [],
)
unfolding parse parse_lines lines lines_from step_line trim trim_start_by is_whitespace assign
    clean_value split_once to_ascii_lowercase lower_char parse_bool set_option eq_ignore_ascii_case
invalid_lines = refl

loads :
    ((load (λ path. not_found) []).source ≡ missing_using_defaults)
    × ((load (λ path. contents (codes "machetes=no")) []).config
        ≡ record default { machetes = false })
    × ((load (λ path. contents (codes "machetes=no")) []).source ≡ loaded)
unfolding load parse parse_lines lines lines_from step_line trim trim_start_by is_whitespace assign
    clean_value split_once to_ascii_lowercase lower_char parse_bool set_option eq_ignore_ascii_case
loads = (refl, refl, refl)

parse-AreNumbered_example :
    AreNumbered 1
      (1 + length (lines (trim_start_by (λ c. c == 0xFEFF) invalid_text)))
      (parse invalid_text).1
parse-AreNumbered_example = parse-AreNumbered invalid_text

abbrev document : List Item
document =
    patches_heading
    ∷ setting key_machetes false
    ∷ other_heading
    ∷ setting key_jackal_tapes false
    ∷ []

parse-render_example : parse (render true document) ≡ (record default { machetes = false }, [])
parse-render_example = parse-render true document
