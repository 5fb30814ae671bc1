-- ===== src/Extension/Label.antt =====
-- A printed tag label, typed back as the argument of `-tag`.
use dbgscope.Base.{
  ℕ, zero, suc, ◌<◌, ◌≡◌, refl, ap, sym, ◌∙◌, arith, false, some, ok, List, [], ◌∷◌, ◌++◌, All,
  length, replicate, inl, inr, Bool-cases,
}
use dbgscope.Base.Words.{IsU32}
use dbgscope.Decode.Tags.{raw_tag_hex, parse_tag, space, display_round_trips, tag_label}
use dbgscope.Decode.Tags.Word.{IsWordByte, display_tag_word, raw_tag_hex_word}
use dbgscope.Decode.Tags.RoundTrip.{parse_tag-raw_tag_hex}
use dbgscope.Extension.{
  parse_args, split_ascii_whitespace, words_from, push_word, is_ascii_whitespace, no_arguments,
  arg_tag, tag_argument,
}
use mathlib.Core.List.{append-nil, append_assoc}

-- A word is read to its end, and blanks behind it end it or change nothing.
words_from_spaces : (k : ℕ) → words_from [] (replicate k space) ≡ []
unfolding words_from push_word
words_from_spaces zero = refl
words_from_spaces (suc k) = words_from_spaces k

push_word_lem :
    (word : List ℕ) (words : List (List ℕ)) → 0 < length word → push_word word words ≡ word ∷ words
unfolding push_word
push_word_lem [] words h = absurd (omega arith)
push_word_lem (b ∷ word) words h = refl

words_from_word :
    (k : ℕ) (front word : List ℕ)
    → All IsWordByte word
    → 0 < length (front ++ word)
    → words_from front (word ++ replicate k space) ≡ (front ++ word) ∷ []
unfolding words_from
words_from_word zero front [] h n = push_word_lem front [] (rw append-nil at n) ∙ rw append-nil
words_from_word (suc k) front [] h n =
    ap (push_word front) (words_from_spaces k)
    ∙ push_word_lem front [] (rw append-nil at n)
    ∙ rw append-nil
words_from_word k front (b ∷ word) h n =
    let printing : is_ascii_whitespace b ≡ false = ground arith in
    rw printing (words_from_word k (front ++ (b ∷ [])) word h.1 (rw append_assoc n))
    ∙ ap (λ w. w ∷ []) (append_assoc front (b ∷ []) word)

-- A label is one word, which parses as the tag.
tag_label_word :
    (tag : ℕ)
    → IsU32 tag
    → (word : List ℕ) × (k : ℕ) × (tag_label tag ≡ word ++ replicate k space)
      × (0 < length word)
      × All IsWordByte word
      × (parse_tag word ≡ some tag)
unfolding tag_label
tag_label_word tag h = elim (Bool-cases (display_round_trips tag)) [
  | inl shown ↦ rw shown (display_tag_word tag h shown)
  | inr hidden ↦
      let (n, printing) = raw_tag_hex_word tag in
      rw hidden (
        raw_tag_hex tag,
        0,
        sym (append-nil (raw_tag_hex tag)),
        n,
        printing,
        parse_tag-raw_tag_hex tag h,
      )
]

-- Every 32-bit tag is shown by a label that names it: typed back as the argument of `-tag`, the
-- label is one argument, and the command that is parsed asks for that tag and nothing else.
pub parse_args-tag_label :
    (tag : ℕ)
    → IsU32 tag
    → parse_args (arg_tag ++ (space ∷ tag_label tag)) ≡ ok (record no_arguments { tag = some tag })
unfolding parse_args split_ascii_whitespace
parse_args-tag_label tag h =
    let (word, k, label, n, printing, parsed) = tag_label_word tag h in
    let words : words_from [] (tag_label tag) ≡ word ∷ [] =
      ap (words_from []) label ∙ words_from_word k [] word printing n in
    rw (words, parsed, tag_argument)
