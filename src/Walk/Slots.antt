-- ===== src/Walk/Slots.antt =====
-- src/pool/snapshot.rs: the slots of a low fragmentation heap's subsegment, and the cells of a page range.
pub mod Lfh
pub mod Cells
use dbgscope.Base.{
  ℕ, ◌+◌, ◌-◌, ◌*◌, ◌/◌, Bool, true, false, not, ◌==◌, ltb, leb, if◌then◌else◌, min, Option, none,
  some, List, [], ◌∷◌, length, get_elem?,
}
use dbgscope.Base.Words.{checked_mul, saturating_add, saturating_sub}
use dbgscope.Decode.Header.{page_size, PoolHeader, decode_pool_header}
use dbgscope.Decode.Lfh.{lfh_bitmap_state}
use dbgscope.Pool.{PoolState, unreadable}
use dbgscope.Snapshot.Spans.{record_span, match_limit_reached}
use dbgscope.Walk.Complaints.{implausible_unit, truncated_bitmap}
use dbgscope.Walk.Regions.{PoolRegion, Walked, base_span, complain, not_complete, first_state}
use dbgscope.Walk.Rounds.{Round, again, done, iterate}
use mathlib.Core.Option

-- `div_ceil`, for a divisor that is not zero.
abbrev pub div_ceil : ℕ → ℕ → ℕ
div_ceil n unit = (n + (unit - 1)) / unit

-- `map_or(0, |header| header.tag)`.
abbrev pub tag_of : Option PoolHeader → ℕ
tag_of none = 0
tag_of (some header) = header.tag

-- Where the bytes lie in the region.
abbrev pub slice_offset : PoolRegion → ℕ → ℕ
slice_offset region base = saturating_sub base region.address

abbrev pub slice_end : PoolRegion → ℕ → List ℕ → ℕ
slice_end region base bytes = saturating_add (slice_offset region base) (length bytes)

-- `get(slot).copied().or_else(first).unwrap_or(Unreadable)`.
abbrev pub cell_state : PoolRegion → ℕ → PoolState
cell_state region slot =
    Option.get_or (get_elem? region.states slot) (first_state unreadable region.states)

abbrev pub cell_tag : PoolRegion → List ℕ → ℕ → ℕ
cell_tag region bytes offset =
    Option.get_or region.known_tag (tag_of (decode_pool_header bytes offset region.pool_header))

-- `unit_size.max(1)`.
abbrev pub cell_unit : PoolRegion → ℕ
cell_unit region = if region.unit_size == 0 then 1 else region.unit_size

module _ {Layout : Type 0} (region : PoolRegion) (base : ℕ) (bytes : List ℕ) where
  -- The loop goes on with the next slot, unless the walk has its matches.
  abbrev pub next_slot : ℕ → Walked Layout → Round (ℕ × Walked Layout) (Walked Layout)
  next_slot slot snapshot =
      if match_limit_reached snapshot then done snapshot else again (slot + 1, snapshot)

  module _ (unit : ℕ) where
    abbrev pub file_slot :
        ℕ → ℕ → Walked Layout → Option PoolState → Round (ℕ × Walked Layout) (Walked Layout)
    file_slot slot slot_offset snapshot none =
        done (not_complete (complain (truncated_bitmap slot) snapshot))
    file_slot slot slot_offset snapshot (some state) =
        let address = region.address + slot_offset in
        let tag =
          tag_of (
            decode_pool_header bytes (slot_offset - slice_offset region base) region.pool_header) in
        next_slot slot (
          record_span snapshot (
            base_span region address (address + region.pool_header.size)
              (unit - region.pool_header.size) tag state))

    -- A slot that would straddle a page is passed over.
    abbrev pub place_slot : ℕ → Walked Layout → Option ℕ → Round (ℕ × Walked Layout) (Walked Layout)
    place_slot slot snapshot none = done snapshot
    place_slot slot snapshot (some slot_offset) =
        let address = region.address + slot_offset in
        if ltb (slice_end region base bytes) (saturating_add slot_offset unit)
        then done snapshot
        else if not (address / page_size == (address + unit - 1) / page_size)
        then again (slot + 1, snapshot)
        else file_slot slot slot_offset snapshot (lfh_bitmap_state region.bitmap slot)

    unfoldable pub lfh_round : ℕ × Walked Layout → Round (ℕ × Walked Layout) (Walked Layout)
    lfh_round (slot, snapshot) = place_slot slot snapshot (checked_mul slot unit)

  -- Every round moves on by a slot or ends the loop. Without a unit the division panics, which is none.
  unfoldable pub walk_lfh : Walked Layout → Option (Walked Layout)
  walk_lfh snapshot =
      let unit = region.unit_size in
      if ltb unit region.pool_header.size
      then some (not_complete (complain (implausible_unit region.unit_size base) snapshot))
      else if unit == 0
      then none
      else iterate (lfh_round unit) (length bytes + 1)
          (div_ceil (slice_offset region base) unit, snapshot)

  module _ (unit : ℕ) where
    abbrev pub file_cell : ℕ → ℕ → Walked Layout → Walked Layout
    file_cell slot slot_offset snapshot =
        let offset = slot_offset - slice_offset region base in
        let size = min unit (length bytes - offset) in
        let header_size = min region.pool_header.size size in
        let address = region.address + slot_offset in
        record_span snapshot (
          base_span region address (address + header_size) (saturating_sub size header_size)
            (cell_tag region bytes offset) (cell_state region slot))

    abbrev pub place_cell : ℕ → Walked Layout → Option ℕ → Round (ℕ × Walked Layout) (Walked Layout)
    place_cell slot snapshot none = done snapshot
    place_cell slot snapshot (some slot_offset) =
        if leb (slice_end region base bytes) slot_offset
        then done snapshot
        else next_slot slot (file_cell slot slot_offset snapshot)

    unfoldable pub cell_round : ℕ × Walked Layout → Round (ℕ × Walked Layout) (Walked Layout)
    cell_round (slot, snapshot) = place_cell slot snapshot (checked_mul slot unit)

  unfoldable pub walk_page_ranges : Walked Layout → Option (Walked Layout)
  walk_page_ranges snapshot =
      iterate (cell_round (cell_unit region)) (length bytes + 1)
        (div_ceil (slice_offset region base) (cell_unit region), snapshot)
