-- ===== src/Decode/Tags/Display.antt =====
-- When a displayed tag identifies its tag.
use dbgscope.Base.{
  ℕ, ◌≡◌, ◌≢◌, refl, ap, sym, ◌∙◌, arith, true, false, ◌==◌, if◌then◌else◌, List, [], ◌∷◌, All, any,
  map, ◌↔◌, inl, inr, Bool-cases, length,
}
use dbgscope.Base.Words.{IsByte, IsU32}
use dbgscope.Decode.Bytes.{from_le_bytes}
use dbgscope.Decode.Tags.{
  tag_bytes, display_byte, display_tag, byte_is_ambiguous, display_is_ambiguous, dot,
}
use dbgscope.Decode.Tags.Digits.{
  tag_bytes-IsByte, from_le_bytes-tag_bytes, length-tag_bytes, tag_bytes-from_le_bytes,
}

-- An unambiguous byte is displayed as itself, and no other byte is displayed so.
clear_byte : (a b : ℕ) → byte_is_ambiguous a ≡ false → display_byte b ≡ display_byte a → b ≡ a
unfolding byte_is_ambiguous display_byte
clear_byte a b h e = ground arith

pub display_byte_clear : (a : ℕ) → byte_is_ambiguous a ≡ false → display_byte a ≡ a
unfolding byte_is_ambiguous display_byte
display_byte_clear a h = ground arith

map-display_byte_clear : (bs : List ℕ) → any byte_is_ambiguous bs ≡ false → map display_byte bs ≡ bs
map-display_byte_clear [] h = refl
map-display_byte_clear (b ∷ bs) h = ground (arith, display_byte_clear b, map-display_byte_clear bs)

-- A tag that is not ambiguous is displayed as its own bytes.
pub display_tag_clear :
    (tag : ℕ) → display_is_ambiguous tag ≡ false → display_tag tag ≡ tag_bytes tag
unfolding display_is_ambiguous display_tag
display_tag_clear tag h = map-display_byte_clear (tag_bytes tag) h

-- Another byte that is displayed as an ambiguous one is.
twin : ℕ → ℕ
twin b = if b == dot then 0 else dot

twin_lem :
    (b : ℕ)
    → byte_is_ambiguous b ≡ true
    → IsByte (twin b) × (twin b ≢ b) × (display_byte (twin b) ≡ display_byte b)
unfolding byte_is_ambiguous display_byte twin
twin_lem b h = ground arith

-- Other bytes with one display, the first ambiguous byte changed.
twins : List ℕ → List ℕ
twins [] = []
twins (b ∷ bs) = let later = twins bs in if byte_is_ambiguous b then twin b ∷ bs else b ∷ later

map-display_byte-twins : (bs : List ℕ) → map display_byte (twins bs) ≡ map display_byte bs
unfolding twins
map-display_byte-twins [] = refl
map-display_byte-twins (b ∷ bs) = ground (arith, twin_lem b, map-display_byte-twins bs)

twins-ne : (bs : List ℕ) → any byte_is_ambiguous bs ≡ true → twins bs ≢ bs
unfolding twins
twins-ne [] h e = cc
twins-ne (b ∷ bs) h e = ground (arith, twin_lem b, twins-ne bs)

twins-IsByte : (bs : List ℕ) → All IsByte bs → All IsByte (twins bs)
unfolding twins
twins-IsByte [] h = tt
twins-IsByte (b ∷ bs) h = elim (Bool-cases (byte_is_ambiguous b)) [
  | inl e ↦ rw e ((twin_lem b e).0, h.1)
  | inr e ↦ rw e (h.0, twins-IsByte bs h.1)
]

length-twins : (bs : List ℕ) → length (twins bs) ≡ length bs
unfolding twins
length-twins [] = refl
length-twins (b ∷ bs) = ground (arith, length-twins bs)

clear_bytes :
    (bs cs : List ℕ)
    → any byte_is_ambiguous bs ≡ false
    → map display_byte cs ≡ map display_byte bs
    → cs ≡ bs
clear_bytes [] [] h e = refl
clear_bytes [] (c ∷ cs) h e = absurd (cc)
clear_bytes (b ∷ bs) [] h e = absurd (cc)
clear_bytes (b ∷ bs) (c ∷ cs) h e = ground (arith, clear_byte b c, clear_bytes bs cs)

four_bytes :
    (bs : List ℕ)
    → length bs ≡ 4
    → All IsByte bs
    → (tag_bytes (from_le_bytes bs) ≡ bs) × IsU32 (from_le_bytes bs)
unfolding from_le_bytes
four_bytes (a ∷ b ∷ c ∷ d ∷ []) l h =
    (tag_bytes-from_le_bytes a b c d h.0 h.1.0 h.1.1.0 h.1.1.1.0, omega arith)
four_bytes (a ∷ b ∷ c ∷ d ∷ e ∷ rest) l h = absurd (omega arith)
four_bytes _ l h = absurd (omega arith)

another_tag :
    (tag : ℕ)
    → display_is_ambiguous tag ≡ true
    → (other : ℕ) × IsU32 other × (other ≢ tag) × (display_tag other ≡ display_tag tag)
unfolding display_is_ambiguous display_tag
another_tag tag h =
    let changed = twins (tag_bytes tag) in
    let (back, word) =
      four_bytes changed (length-twins (tag_bytes tag) ∙ length-tag_bytes tag)
        (twins-IsByte (tag_bytes tag) (tag_bytes-IsByte tag)) in
    (
      from_le_bytes changed,
      word,
      λ e. twins-ne (tag_bytes tag) h (sym back ∙ ap tag_bytes e),
      ap (map display_byte) back ∙ map-display_byte-twins (tag_bytes tag),
    )

same_tag :
    (tag other : ℕ)
    → IsU32 tag
    → IsU32 other
    → display_is_ambiguous tag ≡ false
    → display_tag other ≡ display_tag tag
    → other ≡ tag
unfolding display_is_ambiguous display_tag
same_tag tag other h h' clear e =
    sym (from_le_bytes-tag_bytes other h')
    ∙ ap from_le_bytes (clear_bytes (tag_bytes tag) (tag_bytes other) clear e)
    ∙ from_le_bytes-tag_bytes tag h

-- A tag is ambiguous exactly where another tag is displayed the same way.
pub display_is_ambiguous_iff :
    (tag : ℕ)
    → IsU32 tag
    → (display_is_ambiguous tag ≡ true)
      ↔ ((other : ℕ) × IsU32 other × (other ≢ tag) × (display_tag other ≡ display_tag tag))
display_is_ambiguous_iff tag h = (
  another_tag tag,
  λ (other, h', ne, e). elim (Bool-cases (display_is_ambiguous tag)) [
    | inl yes_it_is ↦ yes_it_is
    | inr clear ↦ absurd (ne (same_tag tag other h h' clear e))
  ],
)
