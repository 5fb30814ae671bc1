-- ===== src/Decode/Tags/Digits.antt =====
-- Hex digits and the four bytes of a tag.
use dbgscope.Base.{
  ℕ, ◌/◌, ◌%◌, ◌≤◌, ◌<◌, ◌≡◌, refl, ap, arith, true, List, [], ◌∷◌, All, all, length,
}
use dbgscope.Base.Words.{IsByte, IsU32}
use dbgscope.Decode.Bytes.{from_le_bytes}
use dbgscope.Decode.Tags.{
  tag_bytes, hex_digit, hex_value, hex_bytes, is_ascii_hexdigit, fill_raw, hex_byte,
}

-- A digit of a byte is a lowercase hex digit that stands for its value.
pub hex_digit_lem :
    (n : ℕ) → n < 16 → (is_ascii_hexdigit (hex_digit n) ≡ true) × (hex_value (hex_digit n) ≡ n)
unfolding hex_digit hex_value
hex_digit_lem n h = ground arith

pub hex_digit-bounds : (n : ℕ) → n < 16 → (b'0' ≤ hex_digit n) × (hex_digit n ≤ b'f')
unfolding hex_digit
hex_digit-bounds n h = ground arith

pub all-hex_bytes : (bs : List ℕ) → All IsByte bs → all is_ascii_hexdigit (hex_bytes bs) ≡ true
unfolding hex_bytes
all-hex_bytes [] h = refl
all-hex_bytes (b ∷ bs) h = rw (
  (hex_digit_lem (b / 16) (omega arith)).0,
  (hex_digit_lem (b % 16) (omega arith)).0,
  all-hex_bytes bs h.1,
)

pub fill_raw-hex_byte :
    (slot b : ℕ) (raw rest : List ℕ)
    → IsByte b
    → fill_raw (slot ∷ raw) (hex_byte b rest) ≡ b ∷ fill_raw raw rest
unfolding fill_raw
fill_raw-hex_byte slot b raw rest h =
    rw ((hex_digit_lem (b / 16) (omega arith)).1, (hex_digit_lem (b % 16) (omega arith)).1)
      (ap (λ (t : ℕ). t ∷ fill_raw raw rest) (omega arith))

-- The bytes of a tag are bytes, and give the tag back.
pub tag_bytes-IsByte : (tag : ℕ) → All IsByte (tag_bytes tag)
unfolding tag_bytes
tag_bytes-IsByte tag = omega arith

pub from_le_bytes-tag_bytes : (tag : ℕ) → IsU32 tag → from_le_bytes (tag_bytes tag) ≡ tag
unfolding from_le_bytes tag_bytes
from_le_bytes-tag_bytes tag h = omega arith

pub tag_bytes-from_le_bytes :
    (a b c d : ℕ)
    → IsByte a
    → IsByte b
    → IsByte c
    → IsByte d
    → tag_bytes (from_le_bytes (a ∷ b ∷ c ∷ d ∷ [])) ≡ a ∷ b ∷ c ∷ d ∷ []
unfolding from_le_bytes tag_bytes
tag_bytes-from_le_bytes a b c d ha hb hc hd = ground arith

pub length-tag_bytes : (tag : ℕ) → length (tag_bytes tag) ≡ 4
unfolding tag_bytes
length-tag_bytes tag = refl
