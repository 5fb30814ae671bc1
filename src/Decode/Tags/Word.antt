-- ===== src/Decode/Tags/Word.antt =====
-- The displayed tags that survive the trip: a word and the spaces that pad it.
use dbgscope.Base.{
  ℕ, zero, suc, ◌+◌, ◌/◌, ◌%◌, ◌≤◌, ◌<◌, ◌≡◌, refl, ap, sym, ◌∙◌, arith, true, false, ◌==◌, ltb,
  some, List, [], ◌∷◌, ◌++◌, All, all, any, length, drop, replicate, inl, inr, Bool-cases,
  length-append, length-replicate,
}
use dbgscope.Base.Words.{IsByte, IsU32}
use dbgscope.Decode.Bytes.{from_le_bytes}
use dbgscope.Decode.Tags.{
  tag_bytes, parse_tag, space, display_tag, display_round_trips, display_is_ambiguous, raw_tag_hex,
  hex_bytes, skip_leading, byte_is_ambiguous,
}
use dbgscope.Decode.Tags.Digits.{
  from_le_bytes-tag_bytes, length-tag_bytes, hex_digit-bounds, tag_bytes-IsByte,
}
use dbgscope.Decode.Tags.Display.{display_tag_clear}
use dbgscope.Decode.Tags.RoundTrip.{parse_tag_text}

-- A byte that prints and is no space.
abbrev pub IsWordByte : ℕ → Type 0
IsWordByte b = (0x21 ≤ b) × (b ≤ 0x7e)

spaces : (bs : List ℕ) → all (λ b. b == space) bs ≡ true → bs ≡ replicate (length bs) space
spaces [] h = refl
spaces (b ∷ bs) h = ground (arith, spaces bs)

clear-IsWordByte : (b : ℕ) → byte_is_ambiguous b ≡ false → (b == space) ≡ false → IsWordByte b
unfolding byte_is_ambiguous
clear-IsWordByte b h e = ground arith

skip_leading_split :
    (bs : List ℕ)
    → any byte_is_ambiguous bs ≡ false
    → all (λ b. b == space) (skip_leading bs) ≡ true
    → (word : List ℕ) × (bs ≡ word ++ replicate (length (skip_leading bs)) space)
      × All IsWordByte word
unfolding skip_leading
skip_leading_split [] h e = ([], refl, tt)
skip_leading_split (b ∷ bs) h e = elim (Bool-cases (b == space)) [
  | inl blank ↦
      let stop : skip_leading (b ∷ bs) ≡ b ∷ bs = rw blank in
      (
        [],
        spaces (b ∷ bs) (rw stop at e) ∙ ap (λ (l : List ℕ). replicate (length l) space) (sym stop),
        tt,
      )
  | inr other ↦
      let more : skip_leading (b ∷ bs) ≡ skip_leading bs = rw other in
      let (word, split, printing) = skip_leading_split bs (ground arith) (rw more at e) in
      (
        b ∷ word,
        ap (◌∷◌ b) split ∙ ap (λ (l : List ℕ). (b ∷ word) ++ replicate (length l) space) (sym more),
        (clear-IsWordByte b (ground arith) other, printing),
      )
]

all_ascii : (word : List ℕ) → All IsWordByte word → all (λ b. ltb b 128) word ≡ true
all_ascii [] h = refl
all_ascii (b ∷ word) h = ground (arith, all_ascii word h.1)

drop-replicate : (n k : ℕ) (a : ℕ) → drop n (replicate (n + k) a) ≡ replicate k a
drop-replicate zero k a = ap (λ n. replicate n a) (omega arith)
drop-replicate (suc n) k a =
    ap (λ m. drop (suc n) (replicate m a)) {y = suc (n + k)} (omega arith) ∙ drop-replicate n k a

round_trips :
    (tag : ℕ)
    → display_round_trips tag ≡ true
    → (display_is_ambiguous tag ≡ false)
      × (any byte_is_ambiguous (tag_bytes tag) ≡ false)
      × (length (skip_leading (tag_bytes tag)) < 4)
      × (all (λ b. b == space) (skip_leading (tag_bytes tag)) ≡ true)
unfolding display_round_trips display_is_ambiguous
round_trips tag e = ground (arith, length-tag_bytes tag)

-- A tag whose display round trips is displayed as a word of printing bytes and spaces behind it,
-- and the word alone parses as the tag.
pub display_tag_word :
    (tag : ℕ)
    → IsU32 tag
    → display_round_trips tag ≡ true
    → (word : List ℕ) × (k : ℕ) × (display_tag tag ≡ word ++ replicate k space)
      × (0 < length word)
      × All IsWordByte word
      × (parse_tag word ≡ some tag)
display_tag_word tag h e =
    let bytes = tag_bytes tag in
    let k : ℕ = length (skip_leading bytes) in
    let (shown, clear, short, blank) = round_trips tag e in
    let (word, split, printing) = skip_leading_split bytes clear blank in
    let four : length word + k ≡ 4 =
      sym (omega (arith, length-append word (replicate k space), length-replicate k space))
      ∙ sym (ap length split)
      ∙ length-tag_bytes tag in
    let padding : drop (length word) (replicate 4 space) ≡ replicate k space =
      ap (λ n. drop (length word) (replicate n space)) (sym four)
      ∙ drop-replicate (length word) k space in
    (
      word,
      k,
      display_tag_clear tag shown ∙ split,
      omega arith,
      printing,
      parse_tag_text word (omega arith) (omega arith) (all_ascii word printing)
          ∙ ap (λ rest. some (from_le_bytes (word ++ rest))) padding
          ∙ ap (λ bs. some (from_le_bytes bs)) (sym split)
          ∙ ap some (from_le_bytes-tag_bytes tag h),
    )

hex_bytes_printing : (bs : List ℕ) → All IsByte bs → All IsWordByte (hex_bytes bs)
unfolding hex_bytes
hex_bytes_printing [] h = tt
hex_bytes_printing (b ∷ bs) h =
    let high = hex_digit-bounds (b / 16) (omega arith) in
    let low = hex_digit-bounds (b % 16) (omega arith) in
    (omega arith, (omega arith, hex_bytes_printing bs h.1))

-- The raw form is a word too.
pub raw_tag_hex_word : (tag : ℕ) → (0 < length (raw_tag_hex tag)) × All IsWordByte (raw_tag_hex tag)
unfolding raw_tag_hex
raw_tag_hex_word tag = (
  omega arith,
  (omega arith, (omega arith, hex_bytes_printing (tag_bytes tag) (tag_bytes-IsByte tag))),
)
