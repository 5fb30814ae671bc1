-- ===== src/Decode/Tags/RoundTrip.antt =====
-- Both printed forms of a tag, given back to `parse_tag`.
use dbgscope.Base.{
  ℕ, ◌*◌, ◌≤◌, ◌<◌, ◌≡◌, refl, ap, sym, ◌∙◌, arith, true, ltb, none, some, List, [], ◌∷◌, ◌++◌, All,
  all, length, drop, replicate, ◌⊎◌, inl, inr, Option-cases,
}
use dbgscope.Base.Words.{IsByte, IsU32}
use dbgscope.Decode.Bytes.{from_le_bytes}
use dbgscope.Decode.Tags.{
  tag_bytes, raw_tag_hex, hex_bytes, parse_raw_tag, parse_tag, strip_hex_prefix, fill_raw, space,
}
use dbgscope.Decode.Tags.Digits.{
  tag_bytes-IsByte, from_le_bytes-tag_bytes, length-tag_bytes, all-hex_bytes, fill_raw-hex_byte,
}

length-hex_bytes : (bs : List ℕ) → length (hex_bytes bs) ≡ 2 * length bs
unfolding hex_bytes
length-hex_bytes [] = refl
length-hex_bytes (b ∷ bs) = omega (arith, length-hex_bytes bs)

fill_raw-hex_bytes :
    (bs : List ℕ) → All IsByte bs → fill_raw (replicate (length bs) 0) (hex_bytes bs) ≡ bs
unfolding hex_bytes
fill_raw-hex_bytes [] h = unfold fill_raw in refl
fill_raw-hex_bytes (b ∷ bs) h =
    fill_raw-hex_byte 0 b (replicate (length bs) 0) (hex_bytes bs) h.0
    ∙ ap (◌∷◌ b) (fill_raw-hex_bytes bs h.1)

-- The raw form of every tag parses as that tag.
pub parse_raw_tag-raw_tag_hex : (tag : ℕ) → IsU32 tag → parse_raw_tag (raw_tag_hex tag) ≡ some tag
unfolding parse_raw_tag raw_tag_hex strip_hex_prefix
parse_raw_tag-raw_tag_hex tag h =
    let digits = hex_bytes (tag_bytes tag) in
    let eight : length digits ≡ 8 =
      omega (arith, length-hex_bytes (tag_bytes tag), length-tag_bytes tag) in
    let filled : fill_raw (replicate 4 0) digits ≡ tag_bytes tag =
      ap (λ n. fill_raw (replicate n 0) digits) (sym (length-tag_bytes tag))
      ∙ fill_raw-hex_bytes (tag_bytes tag) (tag_bytes-IsByte tag) in
    rw (eight, all-hex_bytes (tag_bytes tag) (tag_bytes-IsByte tag), filled)
      (ap some (from_le_bytes-tag_bytes tag h))

-- The raw form of a tag parses as the tag, whatever bytes it has.
pub parse_tag-raw_tag_hex : (tag : ℕ) → IsU32 tag → parse_tag (raw_tag_hex tag) ≡ some tag
unfolding parse_tag
parse_tag-raw_tag_hex tag h = rw (parse_raw_tag-raw_tag_hex tag h, parse_tag)

-- The raw form has exactly ten characters.
pub length-parse_raw_tag :
    (text : List ℕ) {tag : ℕ} → parse_raw_tag text ≡ some tag → length text ≡ 10
unfolding parse_raw_tag strip_hex_prefix
length-parse_raw_tag [] e = absurd (cc)
length-parse_raw_tag (a ∷ []) e = absurd (cc)
length-parse_raw_tag (a ∷ b ∷ digits) e = ground arith

parse_raw_tag_short : (text : List ℕ) → length text ≤ 4 → parse_raw_tag text ≡ none
parse_raw_tag_short text h = elim (Option-cases (parse_raw_tag text)) [
  | inl e ↦ e
  | inr (tag, e) ↦ absurd (omega (arith, length-parse_raw_tag text e))
]

-- One to four ASCII bytes parse as themselves, padded with spaces.
pub parse_tag_text :
    (text : List ℕ)
    → 0 < length text
    → length text ≤ 4
    → all (λ b. ltb b 128) text ≡ true
    → parse_tag text ≡ some (from_le_bytes (text ++ drop (length text) (replicate 4 space)))
unfolding parse_tag
parse_tag_text text p q h = rw (parse_raw_tag_short text q, parse_tag) (ground arith)

-- A text that parses is the raw form, of ten characters, or one to four characters that stand for
-- themselves: no text is both, and none of another length parses.
pub parse_tag_forms :
    (text : List ℕ) {tag : ℕ}
    → parse_tag text ≡ some tag
    → ((length text ≡ 10) × (parse_raw_tag text ≡ some tag))
      ⊎ (0 < length text)
        × (length text ≤ 4)
        × (tag ≡ from_le_bytes (text ++ drop (length text) (replicate 4 space)))
unfolding parse_tag
parse_tag_forms text {tag} e = elim (Option-cases (parse_raw_tag text)) [
  | inl none_raw ↦ inr (ground arith)
  | inr (raw, r) ↦ inl (length-parse_raw_tag text r, ground arith)
]
