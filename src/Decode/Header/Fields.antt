-- ===== src/Decode/Header/Fields.antt =====
-- What the pool header decoders accept, and how they place what they read.
use dbgscope.Base.{
  ℕ, ◌+◌, ◌*◌, ◌/◌, ◌%◌, ◌^◌, ◌≤◌, ◌<◌, ◌≡◌, ap, arith, false, ◌==◌, some, List, length, get_elem?,
  All, >>=-eq-some, get_elem?-All, inl, inr, ==_refl, Bool-cases,
}
use dbgscope.Base.Words.{IsByte, checked_add}
use dbgscope.Base.Bits.Mask.{and_low_mask, and_field}
use dbgscope.Decode.Bytes.{range, read_u32}
use dbgscope.Decode.Bytes.Laws.{length-range}
use dbgscope.Decode.Header.{
  PoolHeader, PoolHeaderLayout, SpecialPoolHeader, byte_at, decode_pool_header,
  decode_special_pool_header, page_size, aligned_16,
}
use dbgscope.Decode.Pointers.{max_pool_header_chunk}

-- A special pool page whose header's first word is read and which decodes has its block where
-- the kernel checks it to be: the requested size and the tracking flag come from that word, the
-- request is not empty, and the block, rounded up to sixteen bytes and standing at the page's
-- end, does not reach into the header.
pub decode_special_pool_header_places :
    (bytes : List ℕ) (offset : ℕ) (layout : PoolHeaderLayout) {word : ℕ} {h : SpecialPoolHeader}
    → read_u32 bytes (offset + layout.previous_size) ≡ some word
    → decode_special_pool_header bytes offset layout ≡ some h
    → (h.requested ≡ word % 2 ^ 13)
      × (h.header_size ≡ layout.size + word / 2 ^ 14 % 2 * 8)
      × (0 < h.requested)
      × (h.requested ≤ aligned_16 h.requested)
      × (aligned_16 h.requested < h.requested + 16)
      × (h.header_size + aligned_16 h.requested ≤ page_size)
unfolding decode_special_pool_header
decode_special_pool_header_places bytes offset layout {word} {h} r e =
    ground (arith, and_low_mask 13 word, and_field 1 14 word)

byte_at-IsByte :
    (bytes : List ℕ) (offset field lane : ℕ) {b : ℕ}
    → All IsByte bytes
    → byte_at bytes offset field lane ≡ some b
    → IsByte b
unfolding byte_at
byte_at-IsByte bytes offset field lane {b} h e =
    let (start, _, rest) = >>=-eq-some (checked_add offset field) _ e in
    let (place, _, read) = >>=-eq-some (checked_add start lane) _ rest in
    get_elem?-All IsByte bytes place h read

-- A pool header that is accepted from a list of bytes lies inside it, in a layout of nonzero
-- size, and has a nonzero block size, of at most the largest chunk that a header describes, and
-- a pool type below 0x80.
pub decode_pool_header_plausible :
    (bytes : List ℕ) (offset : ℕ) (layout : PoolHeaderLayout) {h : PoolHeader}
    → All IsByte bytes
    → decode_pool_header bytes offset layout ≡ some h
    → (0 < layout.size)
      × (offset + layout.size ≤ length bytes)
      × (0 < h.block_size)
      × (h.block_size * 16 ≤ max_pool_header_chunk)
      × (h.pool_type ≤ 0x7f)
unfolding decode_pool_header
decode_pool_header_plausible bytes offset layout {h} bs e = elim (Bool-cases (layout.size == 0)) [
  | inl empty ↦ absurd (cc (rw empty at e))
  | inr sized ↦
      let (out, er, e1) = >>=-eq-some (range bytes offset layout.size) _ (rw sized at e) in
      let (p, _, e2) = >>=-eq-some (byte_at bytes offset layout.previous_size 0) _ e1 in
      let (i, _, e3) = >>=-eq-some (byte_at bytes offset layout.pool_index _) _ e2 in
      let (b, eb, e4) = >>=-eq-some (byte_at bytes offset layout.block_size 0) _ e3 in
      let inside = length-range bytes offset layout.size er in
      let byte = byte_at-IsByte bytes offset layout.block_size 0 bs eb in ground arith
]

byte_at_next :
    (bytes : List ℕ) (offset field : ℕ)
    → offset + field + 1 < 2 ^ 64
    → byte_at bytes offset field 1 ≡ byte_at bytes offset (field + 1) 0
unfolding byte_at
byte_at_next bytes offset field h = ground (
  arith,
  ap (get_elem? bytes) {x = offset + field + 1} {y = offset + (field + 1) + 0} (omega arith),
)

next-ne : (n : ℕ) → ((n + 1) == n) ≡ false
next-ne n = ground arith

-- The two ways a PDB names a bitfield pair agree, where no address wraps: where both members
-- carry the offset of the containing word, the second is read from its high byte, as it is where
-- the PDB gives that byte's own offset.
pub decode_pool_header_shared :
    (bytes : List ℕ) (offset size first second tag : ℕ)
    → offset + first + 1 < 2 ^ 64
    → offset + second + 1 < 2 ^ 64
    → decode_pool_header bytes offset (record {
      size = size;
      previous_size = first;
      pool_index = first;
      block_size = second;
      pool_type = second;
      tag = tag;
    })
      ≡ decode_pool_header bytes offset (record {
        size = size;
        previous_size = first;
        pool_index = first + 1;
        block_size = second;
        pool_type = second + 1;
        tag = tag;
      })
unfolding decode_pool_header
decode_pool_header_shared bytes offset size first second tag p q = rw (
  ==_refl first,
  ==_refl second,
  next-ne first,
  next-ne second,
  byte_at_next bytes offset first p,
  byte_at_next bytes offset second q,
)
