-- ===== src/Decode/Lfh/Tests.antt =====
-- A subsegment of 0x40 blocks, and a bitmap of a few.
use dbgscope.Base.{
  ℕ, ◌+◌, ◌*◌, ◌≤◌, ◌<◌, ◌≡◌, Bool, refl, arith, ok, List, [], ◌∷◌, some, if◌then◌else◌,
}
use dbgscope.Decode.Lfh.{
  split_word, bytes_for, normalise, lfh_bitmap_state, decode_lfh_subsegment, check_lfh_subsegment,
  decode_lfh_offsets,
}
use dbgscope.Decode.Lfh.Bounds.{decode_lfh_subsegment_fits}
use dbgscope.Decode.Lfh.Bitmap.{busy_in_words, lfh_bitmap_state-normalise}
use dbgscope.Pool.{allocated, reusable_free}

-- The same offsets, stored with both keys null.
plain_decodes :
    decode_lfh_subsegment 0x40_0020 0 0 8 0x1000
    ≡ ok (record { block_size = 0x20; first = 0x40; blocks = 8 })
unfolding decode_lfh_subsegment check_lfh_subsegment decode_lfh_offsets
plain_decodes = refl

decode_lfh_subsegment_fits_example :
    (◌≡◌ {A = ℕ} 8 8) × (0 < 8) × (8 ≤ 0x20) × (0x40 < 0x1000) × (0x40 + 8 * 0x20 ≤ 0x1000)
decode_lfh_subsegment_fits_example =
    decode_lfh_subsegment_fits 0x40_0020 0 0 8 0x1000 (omega arith) plain_decodes

-- Forty slots in two words, each with 32 busy bits below 32 others.
abbrev forty_slots : List ℕ
forty_slots = 5 ∷ 0 ∷ 0 ∷ 0 ∷ 255 ∷ 255 ∷ 255 ∷ 255 ∷ 2 ∷ 0 ∷ 0 ∷ 0 ∷ 255 ∷ 255 ∷ 255 ∷ 255 ∷ []

bytes_of_forty : bytes_for split_word 40 ≤ 16
unfolding bytes_for
bytes_of_forty = omega arith

lfh_bitmap_state-normalise_example :
    (busy : List ℕ) × (b : Bool) × (normalise split_word forty_slots 40 ≡ some busy)
    × (busy_in_words split_word forty_slots 33 ≡ some b)
    × (lfh_bitmap_state busy 33 ≡ some (if b then allocated else reusable_free))
lfh_bitmap_state-normalise_example =
    lfh_bitmap_state-normalise split_word forty_slots 40 33 (omega arith) (omega arith)
      (omega arith) bytes_of_forty (omega arith)
