-- ===== src/Walk/Chunks.antt =====
-- src/pool/snapshot.rs: the chain of chunks in one extent of a variable-size subsegment.
pub mod Fine
mod Loop
pub mod Chain
use dbgscope.Base.{
  ℕ, ◌+◌, ◌-◌, ◌*◌, ◌/◌, ◌%◌, ◌^◌, bit_and, Bool, true, false, not, ◌&&◌, ◌||◌, ◌==◌, ltb, leb,
  if◌then◌else◌, min, Option, none, some, List, [], ◌∷◌, ◌++◌, length, Result, ok, err,
}
use dbgscope.Base.Maps.{HashMap}
use dbgscope.Base.Members.{contains}
use dbgscope.Base.Words.{saturating_add, saturating_sub}
use dbgscope.Decode.Bytes.{read_u64}
use dbgscope.Decode.Header.{page_size, decode_pool_header}
use dbgscope.Decode.Pointers.{max_pool_header_chunk}
use dbgscope.Decode.Vs.{VsChunk, VsRejection, vs_unit, decode_vs_chunk}
use dbgscope.Pool.{PoolState, PoolSpan, allocated, reusable_free, cached_free}
use dbgscope.Snapshot.Spans.{record_span, match_limit_reached}
use dbgscope.Walk.Complaints.{
  unplaced_extent, lost_extent, refused_chunk, broken_chain, cut_chunk, short_chunk, resynchronised,
  broken_chains, chunk_limit,
}
use dbgscope.Walk.Memory.{PoolMemory, CommitRun}
use dbgscope.Walk.Regions.{PoolRegion, BigPageEntry, Walked, base_span, complain, not_complete}
use dbgscope.Walk.Rounds.{Round, again, done, iterate}
use dbgscope.Walk.Slots.{tag_of}
use mathlib.Core.Option

pub record VsResume : Type 0 where
  pub next : ℕ
  pub covered_through : ℕ

-- The variables of the loop.
pub record ChunkWalk (Layout : Type 0) : Type 0 where
  pub offset : ℕ
  pub resume : ℕ
  pub lost : Bool
  pub chunks : ℕ
  pub refused : ℕ
  pub resync_from : Option ℕ
  pub chain_breaks : ℕ
  pub previous_chunk : Option ℕ
  pub covered_through : ℕ
  pub snapshot : Walked Layout

-- The world, the snapshot, and where the next extent resumes.
abbrev pub Chained : Type 0 → Type 0 → Type 0
Chained World Layout = World × Walked Layout × Option VsResume

abbrev pub chunk_state : PoolRegion → ℕ → VsChunk → PoolState
chunk_state region header_address chunk =
    if contains header_address region.cached_chunks
    then cached_free
    else if contains header_address region.reusable_chunks
    then reusable_free
    else if chunk.allocated
    then allocated
    else reusable_free

-- `iter().find`: Rust leaves the order of the entries open.
abbrev pub find_big : ℕ → ℕ → HashMap ℕ BigPageEntry → Option (ℕ × BigPageEntry)
find_big header_address end [] = none
find_big header_address end ((address, entry) ∷ entries) =
    let rest = find_big header_address end entries in
    if leb header_address address && ltb address end && leb (saturating_add address entry.size) end
    then some (address, entry)
    else rest

-- The entry of the big page table that a chunk too large for a pool header holds.
abbrev pub big_pool_of : PoolRegion → ℕ → ℕ → Option (ℕ × BigPageEntry)
big_pool_of region header_address chunk_size =
    if ltb max_pool_header_chunk chunk_size
    then find_big header_address (saturating_add header_address chunk_size) region.big_pool
    else none

-- `chunk_size.min(u32::MAX as usize) as u32`.
abbrev pub size_class_of : ℕ → ℕ
size_class_of chunk_size = min chunk_size (2 ^ 32 - 1)

-- Whether a user block after the headers would begin in the last unit of a page.
abbrev pub at_page_end : PoolRegion → ℕ → Bool
at_page_end region physical_header =
    region.vs_skips_page_end
    && bit_and (saturating_add physical_header vs_unit) (page_size - 1) == 0

-- `get_or_insert`.
abbrev pub or_from : ℕ → Option ℕ → ℕ
or_from address none = address
or_from address (some from) = from

-- `is_some_and(|run| !run.committed)`.
abbrev pub holds_nothing : Option CommitRun → Bool
holds_nothing none = false
holds_nothing (some run) = not run.committed

-- Where the user block begins.
abbrev pub block_start : PoolRegion → ℕ → VsChunk → ℕ
block_start region header_address chunk =
    let physical_header = header_address + region.vs_header_size in
    if at_page_end region physical_header
      && leb (saturating_add (region.vs_header_size + region.pool_header.size) vs_unit) chunk.size
    then physical_header + vs_unit
    else physical_header

module _ {Layout : Type 0} (region : PoolRegion) (base : ℕ) (bytes : List ℕ) where
  -- A header that is refused: the loop tries sixteen bytes on.
  abbrev pub refuse : ChunkWalk Layout → VsRejection → ChunkWalk Layout
  refuse walk rejection =
      let header_address = base + walk.offset in
      record walk {
        offset = saturating_add walk.offset 16;
        lost = true;
        refused = walk.refused + 1;
        resync_from = some (or_from header_address walk.resync_from);
        previous_chunk = none;
        snapshot = not_complete (
            if walk.refused == 0
            then complain (refused_chunk header_address rejection) walk.snapshot
            else walk.snapshot);
      }

  -- The chunk is compared with what the one before it measured.
  abbrev pub check_chain : ChunkWalk Layout → VsChunk → Option ℕ → ChunkWalk Layout
  check_chain walk chunk none = walk
  check_chain walk chunk (some expected) =
      if chunk.previous_size == expected then walk else record walk {
        chain_breaks = walk.chain_breaks + 1;
        snapshot = not_complete (
            if walk.chain_breaks == 0
            then complain (broken_chain (base + walk.offset) chunk.previous_size expected)
                walk.snapshot
            else walk.snapshot);
      }

  -- The walk behind a chunk whose span is recorded.
  abbrev pub pass_chunk : ℕ → ChunkWalk Layout → PoolSpan → ChunkWalk Layout
  pass_chunk chunk_size walk span = record walk {
    offset = walk.offset + chunk_size;
    resume = base + (walk.offset + chunk_size);
    chunks = walk.chunks + 1;
    previous_chunk = some chunk_size;
    snapshot = record_span walk.snapshot (record span { size_class = size_class_of chunk_size });
  }

  abbrev pub file_big : VsChunk → ChunkWalk Layout → ℕ × BigPageEntry → ChunkWalk Layout
  file_big chunk walk (address, entry) =
      let passed = pass_chunk chunk.size walk (
        base_span region address address entry.size entry.tag
          (chunk_state region (base + walk.offset) chunk)) in
      record passed { covered_through = passed.resume }

  -- An allocated chunk without room for the block is complained about.
  abbrev pub warn_short : ℕ → VsChunk → Walked Layout → Walked Layout
  warn_short header_address chunk snapshot =
      if at_page_end region (header_address + region.vs_header_size)
        && (not (
              leb (saturating_add (region.vs_header_size + region.pool_header.size) vs_unit)
                chunk.size)
            && chunk.allocated)
      then complain (short_chunk header_address chunk.size) snapshot
      else snapshot

  abbrev pub file_chunk : VsChunk → ChunkWalk Layout → ChunkWalk Layout
  file_chunk chunk walk =
      let header_address = base + walk.offset in
      let physical_header = block_start region header_address chunk in
      let tag =
        tag_of
          (decode_pool_header bytes (saturating_sub physical_header base) region.pool_header) in
      let overhead =
        saturating_add (saturating_sub physical_header header_address) region.pool_header.size in
      let span_header = if region.pool_header.size == 0 then header_address else physical_header in
      pass_chunk chunk.size
        (record walk { snapshot = warn_short header_address chunk walk.snapshot })
        (base_span region span_header (physical_header + region.pool_header.size)
          (saturating_sub chunk.size overhead) tag (chunk_state region header_address chunk))

  -- A chunk that runs into memory which may hold something: the chain goes on behind it.
  abbrev pub cut_at : VsChunk → ChunkWalk Layout → ChunkWalk Layout
  cut_at chunk walk =
      let header_address = base + walk.offset in
      record walk {
        resume = saturating_add header_address chunk.size;
        snapshot = not_complete (
            complain
              (cut_chunk header_address chunk.size
                (saturating_add walk.offset chunk.size - length bytes)
                (saturating_add base (length bytes)))
              walk.snapshot);
      }

  -- What is said after the loop.
  abbrev pub report_refused : ℕ → Option ℕ → Walked Layout → Walked Layout
  report_refused refused none snapshot = snapshot
  report_refused refused (some from) snapshot =
      complain (resynchronised refused from)
        (record snapshot { refused_chunks = saturating_add snapshot.refused_chunks refused })

  abbrev pub report_breaks : ℕ → Walked Layout → Walked Layout
  report_breaks chain_breaks snapshot =
      if ltb 0 chain_breaks then complain (broken_chains chain_breaks base) snapshot else snapshot

  module _ {World : Type 0} (memory : PoolMemory World) (traversal_limit : ℕ) where
    abbrev pub report_limit : ℕ → Walked Layout → Walked Layout
    report_limit chunks snapshot =
        if not (match_limit_reached snapshot) && leb traversal_limit chunks
        then complain (chunk_limit base) (not_complete snapshot)
        else snapshot

    abbrev pub end_chunks : ChunkWalk Layout → World → Chained World Layout
    end_chunks walk w = (
      w,
      report_limit walk.chunks (
          report_breaks walk.chain_breaks
            (report_refused walk.refused walk.resync_from walk.snapshot)),
      if walk.lost
          then none
          else some (record { next = walk.resume; covered_through = walk.covered_through }),
    )

    -- The loop goes on, unless the walk has its matches.
    abbrev pub after_chunk :
        ChunkWalk Layout → World → Round (World × ChunkWalk Layout) (Chained World Layout)
    after_chunk walk w =
        if match_limit_reached walk.snapshot then done (end_chunks walk w) else again (w, walk)

    abbrev pub cross_end :
        VsChunk
        → ChunkWalk Layout
        → World × Option CommitRun
        → Round (World × ChunkWalk Layout) (Chained World Layout)
    cross_end chunk walk (w, run) =
        if holds_nothing run
        then after_chunk (file_chunk chunk walk) w
        else done (end_chunks (cut_at chunk walk) w)

    abbrev pub place_chunk :
        VsChunk
        → ChunkWalk Layout
        → World
        → Option (ℕ × BigPageEntry)
        → Round (World × ChunkWalk Layout) (Chained World Layout)
    place_chunk chunk walk w (some big) = after_chunk (file_big chunk walk big) w
    place_chunk chunk walk w none =
        if ltb (length bytes) (saturating_add walk.offset chunk.size)
        then cross_end chunk walk (memory.committed_run w (saturating_add base (length bytes)))
        else after_chunk (file_chunk chunk walk) w

    abbrev pub take_chunk :
        ChunkWalk Layout
        → World
        → Result VsChunk VsRejection
        → Round (World × ChunkWalk Layout) (Chained World Layout)
    take_chunk walk w (err rejection) = again (w, refuse walk rejection)
    take_chunk walk w (ok chunk) =
        place_chunk chunk (check_chain walk chunk walk.previous_chunk) w
          (big_pool_of region (base + walk.offset) chunk.size)

    abbrev pub read_chunk_header :
        ChunkWalk Layout
        → World
        → Option ℕ
        → Round (World × ChunkWalk Layout) (Chained World Layout)
    read_chunk_header walk w none = done (end_chunks walk w)
    read_chunk_header walk w (some encoded) = take_chunk walk w (
        decode_vs_chunk encoded (base + walk.offset) region.heap_key
          (region.vs_header_size + region.pool_header.size)
          (saturating_add region.address region.size))

    unfoldable pub chunk_round :
        World × ChunkWalk Layout → Round (World × ChunkWalk Layout) (Chained World Layout)
    chunk_round (w, walk) =
        if leb
            (saturating_add (saturating_add walk.offset region.vs_header_size)
              region.pool_header.size)
            (length bytes)
          && ltb walk.chunks traversal_limit
        then read_chunk_header walk w (read_u64 bytes (walk.offset + region.vs_sizes_offset))
        else done (end_chunks walk w)

    -- An extent in which no chunk can be placed.
    abbrev pub unplace : Option ℕ → Walked Layout → Walked Layout
    unplace expected snapshot = not_complete (
        complain
          (elim expected [
            | none ↦ lost_extent base (length bytes)
            | some next ↦ unplaced_extent base next (length bytes)
          ])
          (record snapshot {
            unplaced_bytes = saturating_add snapshot.unplaced_bytes (length bytes);
          }))

    -- Every round moves on in the bytes or ends the loop.
    abbrev pub walk_from : ℕ → Walked Layout → World → Option (Chained World Layout)
    walk_from next snapshot w =
        if leb (saturating_add base (length bytes)) next
        then some (w, snapshot, some (record { next = next; covered_through = base }))
        else iterate chunk_round (length bytes + 2) (
          w,
          record {
            offset = next - base;
            resume = next;
            lost = false;
            chunks = 0;
            refused = 0;
            resync_from = none;
            chain_breaks = 0;
            previous_chunk = none;
            covered_through = base;
            snapshot = snapshot;
          },
        )

    unfoldable pub walk_vs : Option ℕ → Walked Layout → World → Option (Chained World Layout)
    walk_vs none snapshot w = some (w, unplace none snapshot, none)
    walk_vs (some next) snapshot w =
        if leb base next
        then walk_from next snapshot w
        else some (w, unplace (some next) snapshot, none)
