-- ===== src/Config/Documents.antt =====
-- Documents for `parse` of src/patches/config.rs, and the configuration that each one means.
use fc2_systemdetection.Config.Options.{
  ParseState, PatchConfig, assign, clean_value, default, parse, parse_bool, parse_lines, set_option,
  step_line,
}
use fc2_systemdetection.Prelude.{
  Bool, List, [], ap₂, false, if◌then◌else◌, refl, true, ℕ, ◌++◌, ◌+◌, ◌∷◌, ◌≡◌,
}
use fc2_systemdetection.Text.{
  Text, codes, eq_ignore_ascii_case, is_whitespace, lines, lines_from, lower_char, split_once,
  to_ascii_lowercase, trim, trim_start_by,
}

pub data Key : Type 0 where
  key_jackal_tapes key_devmode_always_on key_predecessor_tapes key_machetes : Key
  key_no_blinking_items : Key

-- A line of a document: a setting, a comment, an empty line, the heading of the section of the
-- patches, or that of another section.
pub data Item : Type 0 where
  setting : Key → Bool → Item
  note blank patches_heading other_heading : Item

-- The name of an option as the example file has it.
abbrev pub key_name : Key → Text
key_name key_jackal_tapes = codes "jackal_tapes"
key_name key_devmode_always_on = codes "devmode_always_on"
key_name key_predecessor_tapes = codes "predecessor_tapes"
key_name key_machetes = codes "machetes"
key_name key_no_blinking_items = codes "no_blinking_items"

abbrev pub value_name : Bool → Text
value_name true = codes "true"
value_name false = codes "false"

abbrev pub line_of : Item → Text
line_of (setting key value) = key_name key ++ codes " = " ++ value_name value
line_of note = codes "# jackal_tapes = false"
line_of blank = []
line_of patches_heading = codes "[patches]"
line_of other_heading = codes "[graphics]"

abbrev pub render_items : List Item → Text
render_items [] = []
render_items (item ∷ items) = line_of item ++ (b'\n' ∷ render_items items)

-- The text of the items, behind a byte order mark if there is one, and a comment.
abbrev pub render : Bool → List Item → Text
render mark items =
    if mark
    then 0xFEFF ∷ codes "; options\n" ++ render_items items
    else codes "; options\n" ++ render_items items

-- One option set, all others kept.
abbrev pub assign_key : Key → Bool → PatchConfig → PatchConfig
assign_key key_jackal_tapes value c = record c { jackal_tapes = value }
assign_key key_devmode_always_on value c = record c { devmode_always_on = value }
assign_key key_predecessor_tapes value c = record c { predecessor_tapes = value }
assign_key key_machetes value c = record c { machetes = value }
assign_key key_no_blinking_items value c = record c { no_blinking_items = value }

-- What the items make of a configuration: a setting counts in the section of the patches alone, and
-- a later one replaces an earlier one.
abbrev pub meaning : Bool → List Item → PatchConfig → PatchConfig
meaning inside [] c = c
meaning true (setting key value ∷ items) c = meaning true items (assign_key key value c)
meaning false (setting key value ∷ items) c = meaning false items c
meaning inside (note ∷ items) c = meaning inside items c
meaning inside (blank ∷ items) c = meaning inside items c
meaning inside (patches_heading ∷ items) c = meaning true items c
meaning inside (other_heading ∷ items) c = meaning false items c

abbrev state : Bool → PatchConfig → ParseState
state inside c = record { config = c; warnings = []; in_patches_section = inside }

abbrev parse_text : ℕ → Text → ParseState → ParseState
parse_text n text s = parse_lines n (lines text) s

-- A line of the loop that sets an option.
line_set :
    (key : Key) (value : Bool) (rest : Text) (n : ℕ) (c : PatchConfig)
    → parse_text n (line_of (setting key value) ++ (b'\n' ∷ rest)) (state true c)
      ≡ parse_text (n + 1) rest (state true (assign_key key value c))
unfolding parse_lines lines lines_from step_line trim trim_start_by is_whitespace assign clean_value
    split_once to_ascii_lowercase lower_char parse_bool set_option eq_ignore_ascii_case
line_set key_jackal_tapes true rest n c = refl
line_set key_jackal_tapes false rest n c = refl
line_set key_devmode_always_on true rest n c = refl
line_set key_devmode_always_on false rest n c = refl
line_set key_predecessor_tapes true rest n c = refl
line_set key_predecessor_tapes false rest n c = refl
line_set key_machetes true rest n c = refl
line_set key_machetes false rest n c = refl
line_set key_no_blinking_items true rest n c = refl
line_set key_no_blinking_items false rest n c = refl

-- The same line in another section, which is passed over.
line_outside :
    (key : Key) (value : Bool) (rest : Text) (n : ℕ) (c : PatchConfig)
    → parse_text n (line_of (setting key value) ++ (b'\n' ∷ rest)) (state false c)
      ≡ parse_text (n + 1) rest (state false c)
unfolding parse_lines lines lines_from step_line trim trim_start_by is_whitespace assign clean_value
    split_once to_ascii_lowercase lower_char parse_bool set_option eq_ignore_ascii_case
line_outside key_jackal_tapes true rest n c = refl
line_outside key_jackal_tapes false rest n c = refl
line_outside key_devmode_always_on true rest n c = refl
line_outside key_devmode_always_on false rest n c = refl
line_outside key_predecessor_tapes true rest n c = refl
line_outside key_predecessor_tapes false rest n c = refl
line_outside key_machetes true rest n c = refl
line_outside key_machetes false rest n c = refl
line_outside key_no_blinking_items true rest n c = refl
line_outside key_no_blinking_items false rest n c = refl

parse_items :
    (inside : Bool) (items : List Item) (n : ℕ) (c : PatchConfig)
    → ((parse_text n (render_items items) (state inside c)).config ≡ meaning inside items c)
      × ((parse_text n (render_items items) (state inside c)).warnings ≡ [])
unfolding parse_lines lines lines_from step_line trim trim_start_by is_whitespace assign clean_value
    split_once to_ascii_lowercase lower_char parse_bool set_option eq_ignore_ascii_case
parse_items inside [] n c = (refl, refl)
parse_items true (setting key value ∷ items) n c =
    rw (line_set key value (render_items items) n c)
      (parse_items true items (n + 1) (assign_key key value c))
parse_items false (setting key value ∷ items) n c =
    rw (line_outside key value (render_items items) n c) (parse_items false items (n + 1) c)
parse_items inside (note ∷ items) n c = parse_items inside items (n + 1) c
parse_items inside (blank ∷ items) n c = parse_items inside items (n + 1) c
parse_items inside (patches_heading ∷ items) n c = parse_items true items (n + 1) c
parse_items inside (other_heading ∷ items) n c = parse_items false items (n + 1) c

-- A document is parsed to the configuration that its items mean from the defaults on, and without
-- a warning.
pub parse-render :
    (mark : Bool) (items : List Item) → parse (render mark items) ≡ (meaning true items default, [])
unfolding parse parse_lines lines lines_from step_line trim trim_start_by is_whitespace assign
    clean_value split_once to_ascii_lowercase lower_char parse_bool set_option eq_ignore_ascii_case
parse-render true items =
    ap₂ (λ c w. (c, w)) (parse_items true items 2 default).0 (parse_items true items 2 default).1
parse-render false items =
    ap₂ (λ c w. (c, w)) (parse_items true items 2 default).0 (parse_items true items 2 default).1
