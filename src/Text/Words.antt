-- ===== src/Text/Words.antt =====
-- Words of a text, joined and split again.
use mathlib.Core.List.{append-nil, append_assoc}
use fc2_systemdetection.Prelude.{
  All, Bool, List, [], ap, arith, false, not, refl, sym, true, ◌&&◌, ◌++◌, ◌∙◌, ◌∷◌, ◌≡◌, ◌≢◌,
}
use fc2_systemdetection.Text.{Text, codes, is_whitespace, push_word, split_whitespace, words_from}
use fc2_systemdetection.Text.Format.{join}

-- A word has a char, and no white space.
abbrev pub is_word : Text → Bool
is_word [] = false
is_word (c ∷ []) = not (is_whitespace c)
is_word (c ∷ d ∷ cs) = not (is_whitespace c) && is_word (d ∷ cs)

push_nonempty : (word : Text) (words : List Text) → word ≢ [] → push_word word words ≡ word ∷ words
push_nonempty [] words some_char = absurd (some_char refl)
push_nonempty (c ∷ cs) words some_char = refl

-- Chars of a word are read into the part that has been read.
words_from_word :
    (word cs rest : Text)
    → is_word cs ≡ true
    → words_from word (cs ++ rest) ≡ words_from (word ++ cs) rest
unfolding words_from
words_from_word word [] rest h = absurd (ground (arith, h))
words_from_word word (c ∷ []) rest h =
    let plain : is_whitespace c ≡ false = ground (arith, h) in rw (plain, words_from) refl
words_from_word word (c ∷ d ∷ cs) rest h =
    let plain : is_whitespace c ≡ false = ground (arith, h) in
    let later : is_word (d ∷ cs) ≡ true = ground (arith, h) in
    rw (plain, words_from)
      (words_from_word (word ++ (c ∷ [])) (d ∷ cs) rest later
        ∙ ap (λ w. words_from w rest) (append_assoc word (c ∷ []) (d ∷ cs)))

word_nonempty : (w : Text) → is_word w ≡ true → w ≢ []
word_nonempty [] h e = cc
word_nonempty (c ∷ cs) h e = cc

-- Words joined by single spaces are split into the same words.
pub split_whitespace-join :
    (words : List Text)
    → All (λ w. is_word w ≡ true) words
    → split_whitespace (join (codes " ") words) ≡ words
unfolding split_whitespace words_from join is_whitespace
split_whitespace-join [] h = refl
split_whitespace-join (w ∷ []) (here, rest) =
    sym (ap (words_from []) (append-nil w))
    ∙ words_from_word [] w [] here
    ∙ push_nonempty w [] (word_nonempty w here)
split_whitespace-join (w ∷ v ∷ words) (here, rest) =
    words_from_word [] w (codes " " ++ join (codes " ") (v ∷ words)) here
    ∙ push_nonempty w (words_from [] (join (codes " ") (v ∷ words))) (word_nonempty w here)
    ∙ ap (λ t. w ∷ t) (split_whitespace-join (v ∷ words) rest)
