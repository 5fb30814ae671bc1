-- ===== src/Decode/Tags.antt =====
-- src/pool/decode.rs: the two printed forms of a pool tag, and the parser that takes either back.
-- A text is the list of its bytes.
pub mod Digits
pub mod Display
pub mod RoundTrip
pub mod Word
mod Tests
use dbgscope.Base.{
  ℕ, zero, suc, ◌+◌, ◌*◌, ◌-◌, ◌/◌, ◌%◌, ◌^◌, ◌<◌, Bool, true, false, not, ◌||◌, ◌&&◌, ◌==◌, ltb,
  leb, if◌then◌else◌, Option, none, some, ◌>>=◌, List, [], ◌∷◌, ◌++◌, map, all, any, length, drop,
  replicate,
}
use dbgscope.Decode.Bytes.{from_le_bytes}

abbrev pub space : ℕ
space = 0x20

abbrev pub dot : ℕ
dot = 0x2e

-- `tag.to_le_bytes()`.
unfoldable pub tag_bytes : ℕ → List ℕ
tag_bytes tag = (tag % 256) ∷ (tag / 2 ^ 8 % 256) ∷ (tag / 2 ^ 16 % 256) ∷ (tag / 2 ^ 24 % 256) ∷ []

abbrev pub is_ascii_graphic : ℕ → Bool
is_ascii_graphic byte = leb 0x21 byte && leb byte 0x7e

unfoldable pub display_byte : ℕ → ℕ
display_byte byte = if is_ascii_graphic byte || byte == space then byte else dot

unfoldable pub display_tag : ℕ → List ℕ
display_tag tag = map display_byte (tag_bytes tag)

unfoldable pub byte_is_ambiguous : ℕ → Bool
byte_is_ambiguous byte = byte == dot || not (is_ascii_graphic byte || byte == space)

unfoldable pub display_is_ambiguous : ℕ → Bool
display_is_ambiguous tag = any byte_is_ambiguous (tag_bytes tag)

-- A digit of `{:02x}`.
unfoldable pub hex_digit : ℕ → ℕ
hex_digit n = if ltb n 10 then b'0' + n else b'a' + (n - 10)

abbrev pub hex_byte : ℕ → List ℕ → List ℕ
hex_byte byte rest = hex_digit (byte / 16) ∷ hex_digit (byte % 16) ∷ rest

pub hex_bytes : List ℕ → List ℕ
hex_bytes [] = []
hex_bytes (byte ∷ rest) = hex_byte byte (hex_bytes rest)

unfoldable pub raw_tag_hex : ℕ → List ℕ
unfolding hex_bytes
raw_tag_hex tag = b'0' ∷ b'x' ∷ hex_bytes (tag_bytes tag)

-- `bytes[leading..].iter().all(…)`, with `leading` counted by `take_while`.
pub skip_leading : List ℕ → List ℕ
skip_leading [] = []
skip_leading (byte ∷ rest) =
    let later = skip_leading rest in if not (byte == space) then later else byte ∷ rest

unfoldable pub display_round_trips : ℕ → Bool
unfolding skip_leading
display_round_trips tag =
    if display_is_ambiguous tag
    then false
    else let bytes = tag_bytes tag in
      let trailing = skip_leading bytes in
      ltb (length trailing) (length bytes) && all (λ byte. byte == space) trailing

unfoldable pub tag_label : ℕ → List ℕ
tag_label tag = if display_round_trips tag then display_tag tag else raw_tag_hex tag

abbrev pub is_ascii_hexdigit : ℕ → Bool
is_ascii_hexdigit b =
    leb b'0' b && leb b b'9' || (leb b'a' b && leb b b'f' || leb b'A' b && leb b b'F')

-- The value of one hex digit.
unfoldable pub hex_value : ℕ → ℕ
hex_value b = if leb b b'9' then b - b'0' else if leb b'a' b then b - b'a' + 10 else b - b'A' + 10

-- `text.strip_prefix("0x").or_else(|| text.strip_prefix("0X"))`.
unfoldable pub strip_hex_prefix : List ℕ → Option (List ℕ)
strip_hex_prefix (a ∷ b ∷ digits) =
    if a == b'0' && (b == b'x' || b == b'X') then some digits else none
strip_hex_prefix _ = none

-- The loop over the slots of `raw` and the pairs of digits. A pair is two hex digits that were
-- checked before, so its radix parse cannot fail.
pub fill_raw : List ℕ → List ℕ → List ℕ
fill_raw (slot ∷ raw) (high ∷ low ∷ digits) =
    (hex_value high * 16 + hex_value low) ∷ fill_raw raw digits
fill_raw raw _ = raw

unfoldable pub parse_raw_tag : List ℕ → Option ℕ
unfolding fill_raw
parse_raw_tag text = do
  digits ← strip_hex_prefix text
  if length digits == 8 && all is_ascii_hexdigit digits
      then some (from_le_bytes (fill_raw (replicate 4 0) digits))
      else none

-- `raw[..bytes.len()].copy_from_slice(bytes)` over four spaces.
abbrev pad : List ℕ → List ℕ
pad bytes = bytes ++ drop (length bytes) (replicate 4 space)

unfoldable pub parse_tag : List ℕ → Option ℕ
parse_tag text = elim (parse_raw_tag text) [
  | some raw ↦ some raw
  | none ↦
      if length text == 0 || (ltb 4 (length text) || not (all (λ b. ltb b 128) text))
      then none
      else some (from_le_bytes (pad text))
]
