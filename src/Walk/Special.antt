-- ===== src/Walk/Special.antt =====
-- src/pool/snapshot.rs: the pages of Driver Verifier's special pool.
pub mod Placement
use dbgscope.Base.{
  ℕ, ◌+◌, ◌-◌, ◌*◌, ◌/◌, Bool, true, false, not, ◌&&◌, ◌==◌, ltb, leb, if◌then◌else◌, min, Option,
  none, some, List, [], ◌∷◌, ◌++◌, all, length, take, drop,
}
use dbgscope.Base.Words.{checked_add, saturating_sub}
use dbgscope.Decode.Header.{page_size, SpecialPoolHeader, aligned_16, decode_special_pool_header}
use dbgscope.Pool.{allocated}
use dbgscope.Snapshot.Spans.{record_span, match_limit_reached}
use dbgscope.Walk.Complaints.{undecodable_page, uncorroborated_size}
use dbgscope.Walk.Regions.{PoolRegion, Walked, base_span, complain, not_complete}
use dbgscope.Walk.Rounds.{Round, again, done, iterate}

pub record SpecialPlacement : Type 0 where
  pub usable : ℕ
  pub size : ℕ
  pub approximate : Bool

-- The two runs of fill: between the header and the block, and behind the block.
abbrev pub is_filled : SpecialPoolHeader → List ℕ → ℕ → Bool
is_filled header page_bytes start =
    all (λ byte. byte == header.fill)
      (take (start - header.header_size) (drop header.header_size page_bytes))
    && all (λ byte. byte == header.fill) (drop (start + header.requested) page_bytes)

unfoldable pub special_pool_placement : ℕ → SpecialPoolHeader → List ℕ → SpecialPlacement
special_pool_placement page header page_bytes =
    let available = length page_bytes in
    let aligned = aligned_16 header.requested in
    if available == page_size && is_filled header page_bytes (page_size - aligned)
    then record {
      usable = page + page_size - aligned;
      size = header.requested;
      approximate = false;
    }
    else record {
      usable = page + header.header_size;
      size = saturating_sub available header.header_size;
      approximate = true;
    }

module _ {Layout : Type 0} (region : PoolRegion) (base : ℕ) (bytes : List ℕ) where
  -- The next page, unless the addresses end.
  abbrev pub next_page : Walked Layout → Option ℕ → Round (ℕ × Walked Layout) (Walked Layout)
  next_page snapshot none = done snapshot
  next_page snapshot (some page) = again (page, snapshot)

  abbrev pub file_block : ℕ → SpecialPoolHeader → SpecialPlacement → Walked Layout → Walked Layout
  file_block page header placement snapshot =
      record_span
        (if placement.approximate
          then not_complete (complain (uncorroborated_size page header.tag) snapshot)
          else snapshot)
        (base_span region page placement.usable placement.size header.tag allocated)

  abbrev pub file_page :
      ℕ
      → List ℕ
      → Walked Layout
      → Option SpecialPoolHeader
      → Round (ℕ × Walked Layout) (Walked Layout)
  file_page page page_bytes snapshot none =
      next_page (not_complete (complain (undecodable_page page) snapshot))
        (checked_add page page_size)
  file_page page page_bytes snapshot (some header) =
      if header.tag == 0
      then next_page snapshot (checked_add page page_size)
      else let filed =
          file_block page header (special_pool_placement page header page_bytes) snapshot in
        if match_limit_reached filed
        then done filed
        else next_page filed (checked_add page page_size)

  unfoldable pub special_round : ℕ × Walked Layout → Round (ℕ × Walked Layout) (Walked Layout)
  special_round (page, snapshot) =
      let offset = page - base in
      if leb (length bytes) offset
      then done snapshot
      else file_page page (take (min (length bytes - offset) page_size) (drop offset bytes))
          snapshot (decode_special_pool_header bytes offset region.pool_header)

  -- Every round moves on by a page or ends the loop. The first page is not before the base.
  unfoldable pub walk_special_pool : Walked Layout → Option (Walked Layout)
  walk_special_pool snapshot =
      iterate special_round (length bytes + 1)
        ((base + (page_size - 1)) / page_size * page_size, snapshot)
