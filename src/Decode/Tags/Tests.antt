-- ===== src/Decode/Tags/Tests.antt =====
-- Tags and their texts.
use dbgscope.Base.{
  ℕ, ◌≤◌, ◌<◌, ◌≡◌, ◌≢◌, ◌↔◌, ◌⊎◌, refl, arith, true, some, List, [], ◌∷◌, ◌++◌, length, drop,
  replicate,
}
use dbgscope.Base.Words.{IsU32}
use dbgscope.Decode.Bytes.{from_le_bytes}
use dbgscope.Decode.Tags.{
  display_is_ambiguous, display_tag, parse_tag, parse_raw_tag, space, strip_hex_prefix,
}
use dbgscope.Decode.Tags.Display.{display_is_ambiguous_iff}
use dbgscope.Decode.Tags.RoundTrip.{parse_tag_forms}

display_is_ambiguous_iff_example : (display_is_ambiguous 0x2e54_6700 ≡ true) ↔ (
    (other : ℕ) × IsU32 other
    × (other ≢ 0x2e54_6700)
    × (display_tag other ≡ display_tag 0x2e54_6700))
display_is_ambiguous_iff_example = display_is_ambiguous_iff 0x2e54_6700 (omega arith)

abbrev two_letters : List ℕ
two_letters = b'A' ∷ b'b' ∷ []

two_letters_parse : parse_tag two_letters ≡ some 0x2020_6241
unfolding parse_tag parse_raw_tag strip_hex_prefix from_le_bytes
two_letters_parse = refl

parse_tag_forms_example :
    ((length two_letters ≡ 10) × (parse_raw_tag two_letters ≡ some 0x2020_6241))
    ⊎ (0 < length two_letters)
      × (length two_letters ≤ 4)
      × (0x2020_6241 ≡ from_le_bytes (two_letters ++ drop (length two_letters) (replicate 4 space)))
parse_tag_forms_example = parse_tag_forms two_letters two_letters_parse
