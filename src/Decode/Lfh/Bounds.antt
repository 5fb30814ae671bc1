-- ===== src/Decode/Lfh/Bounds.antt =====
-- What `decode_lfh_subsegment` accepts.
use dbgscope.Base.{ℕ, ◌+◌, ◌*◌, ◌^◌, ◌≤◌, ◌<◌, ◌≡◌, arith, ok}
use dbgscope.Base.Words.{u64_max}
use dbgscope.Decode.Lfh.{LfhSubsegment, check_lfh_subsegment, decode_lfh_subsegment}

-- Where the page range is smaller than the largest word, an accepted header describes the given
-- number of blocks, at least one, each of at least eight bytes, and all of them lie inside the
-- page range, the first before its end.
pub decode_lfh_subsegment_fits :
    (encoded subsegment lfh_key blocks region_size : ℕ) {s : LfhSubsegment}
    → region_size < u64_max
    → decode_lfh_subsegment encoded subsegment lfh_key blocks region_size ≡ ok s
    → (s.blocks ≡ blocks)
      × (0 < s.blocks)
      × (8 ≤ s.block_size)
      × (s.first < region_size)
      × (s.first + s.blocks * s.block_size ≤ region_size)
unfolding decode_lfh_subsegment
decode_lfh_subsegment_fits encoded subsegment lfh_key blocks region_size h e = ground arith

pub check_lfh_subsegment_accepts :
    (block_size first encoded blocks region_size : ℕ)
    → region_size < 2 ^ 64
    → 0 < blocks
    → 8 ≤ block_size
    → first + blocks * block_size ≤ region_size
    → check_lfh_subsegment block_size first encoded blocks region_size
      ≡ ok (record { block_size = block_size; first = first; blocks = blocks })
unfolding check_lfh_subsegment
check_lfh_subsegment_accepts block_size first encoded blocks region_size h b s f =
    ground (arith, positive)
  where
    positive : 0 < blocks * block_size
    positive = grind arith
