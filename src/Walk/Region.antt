-- ===== src/Walk/Region.antt =====
-- src/pool/snapshot.rs: the walk through one region, extent by extent.
pub mod Kept
pub mod Loop
pub mod Returns
use dbgscope.Base.{
  ℕ, ◌+◌, ◌-◌, ◌%◌, Bool, true, false, not, ◌&&◌, ◌==◌, ltb, leb, if◌then◌else◌, min, Option, none,
  some, ◌>>=◌, List, [], ◌∷◌, length, Result, ok, err,
}
use dbgscope.Base.Words.{saturating_add, saturating_sub}
use dbgscope.Decode.Header.{page_size}
use dbgscope.Pool.{PoolBackend, PoolState, lfh, vs, segment, large, allocated}
use dbgscope.Snapshot.Spans.{record_span, match_limit_reached}
use dbgscope.Walk.Complaints.{
  Complaint, unanswered_query, partly_committed, stalled_query, dead_region, unreadable_region,
}
use dbgscope.Walk.Chunks.{VsResume, Chained, walk_vs}
use dbgscope.Walk.Extent.{read_extent}
use dbgscope.Walk.Memory.{SnapshotError, halts_walk, PoolMemory, check_budget}
use dbgscope.Walk.Regions.{PoolRegion, Walked, base_span, complain, first_state, unreadable_space}
use dbgscope.Walk.Nodes.{max}
use dbgscope.Walk.Rounds.{Round, again, done, iterate}
use dbgscope.Walk.Slots.{walk_lfh, walk_page_ranges}
use dbgscope.Walk.Special.{walk_special_pool}

-- `MAX_CONSECUTIVE_STALLS`.
abbrev pub max_consecutive_stalls : ℕ
max_consecutive_stalls = 8

-- The variables of the loop.
pub record RegionWalk (Layout : Type 0) : Type 0 where
  pub cursor : ℕ
  pub consecutive_stalls : ℕ
  pub stalled_here : Bool
  pub vs_chunk : Option ℕ
  pub vs_covered : ℕ
  pub snapshot : Walked Layout

-- The world, the snapshot, and the error that ends the walk.
abbrev pub Ended : Type 0 → Type 0 → Type 0
Ended World Layout = World × Walked Layout × Result (Unit {0}) SnapshotError

-- A round, in which none is a loop inside it that has run out of fuel.
abbrev pub RegionRound : Type 0 → Type 0 → Type 0
RegionRound World Layout = Round (World × RegionWalk Layout) (Option (Ended World Layout))

abbrev pub proceed :
    {World Layout A : Type 0} → (A → RegionRound World Layout) → Option A → RegionRound World Layout
proceed next none = done none
proceed next (some a) = next a

-- `valid_base & !(PAGE_SIZE - 1)`, and the page behind it.
abbrev pub page_end : ℕ → ℕ
page_end address = saturating_add (address - address % page_size) page_size

abbrev pub requested_end : PoolRegion → ℕ
requested_end region = saturating_add region.address region.size

-- The counts of a page that was stepped over.
abbrev pub count_stall :
    {Layout : Type 0} → ℕ → ℕ → RegionWalk Layout → Walked Layout → RegionWalk Layout
count_stall skip cursor walk snapshot = record walk {
  cursor = cursor;
  consecutive_stalls = walk.consecutive_stalls + 1;
  stalled_here = true;
  snapshot = record snapshot {
    stalls = record {
      pages = snapshot.stalls.pages + 1;
      skipped_bytes = saturating_add snapshot.stalls.skipped_bytes skip;
      recovered_bytes = snapshot.stalls.recovered_bytes;
    };
  };
}

abbrev pub cover : ℕ → Option VsResume → ℕ
cover vs_covered none = vs_covered
cover vs_covered (some resume) = max vs_covered resume.covered_through

abbrev pub next_of : Option VsResume → Option ℕ
next_of none = none
next_of (some resume) = some resume.next

-- What is read behind a stall is counted.
abbrev pub count_recovered : {Layout : Type 0} → ℕ → RegionWalk Layout → RegionWalk Layout
count_recovered size walk =
    if walk.stalled_here
    then record walk {
      snapshot = record walk.snapshot {
        stalls = record walk.snapshot.stalls {
          recovered_bytes = saturating_add walk.snapshot.stalls.recovered_bytes size;
        };
      };
    }
    else walk

module _ {World Layout : Type 0} (memory : PoolMemory World) (traversal_limit : ℕ)
    (region : PoolRegion) where
  -- The loop is left.
  abbrev pub finish : World × Walked Layout × Bool → RegionRound World Layout
  finish (w, snapshot, missed) = done (some (w, snapshot, ok tt))

  -- The space up to the requested end is filed, and the loop is left.
  abbrev pub file_rest : ℕ → World → Walked Layout → RegionRound World Layout
  file_rest from w snapshot =
      proceed finish (unreadable_space memory region from (requested_end region - from) w snapshot)

  abbrev pub go_on : ℕ → RegionWalk Layout → World × Walked Layout × Bool → RegionRound World Layout
  go_on cursor walk (w, snapshot, missed) =
      again (w, record walk { cursor = cursor; snapshot = snapshot })

  abbrev pub after_stall : RegionWalk Layout → World → RegionRound World Layout
  after_stall walk w =
      if leb max_consecutive_stalls walk.consecutive_stalls
      then file_rest walk.cursor w (complain (dead_region region.address region.size) walk.snapshot)
      else again (w, walk)

  abbrev pub step_page :
      ℕ → ℕ → RegionWalk Layout → World × Walked Layout × Bool → RegionRound World Layout
  step_page valid_base skip walk (w, snapshot, missed) =
      after_stall (count_stall skip (saturating_add valid_base skip) walk snapshot) w

  -- A query that does not advance: the region ends, or has nothing more, or stalls.
  abbrev pub stall : ℕ → ℕ → ℕ → RegionWalk Layout → World → RegionRound World Layout
  stall reported_base reported_size valid_base walk w =
      if leb (requested_end region) valid_base
      then done (some (w, walk.snapshot, ok tt))
      else if reported_base == 0 && reported_size == 0
      then file_rest (min (max valid_base walk.vs_covered) (requested_end region)) w walk.snapshot
      else let skip = min (page_end valid_base) (requested_end region) - valid_base in
        let gap_start = min (max valid_base walk.vs_covered) (valid_base + skip) in
        proceed (step_page valid_base skip walk) (
          unreadable_space memory region gap_start (valid_base + skip - gap_start) w
            (complain (stalled_query valid_base reported_base reported_size) walk.snapshot))

  -- The loop goes on behind the extent, unless the walk has its matches.
  abbrev pub after_extent : ℕ → RegionWalk Layout → World → Walked Layout → RegionRound World Layout
  after_extent valid_end walk w snapshot =
      if match_limit_reached snapshot
      then done (some (w, snapshot, ok tt))
      else again (w, record walk { cursor = valid_end; snapshot = snapshot })

  abbrev pub after_chain : ℕ → RegionWalk Layout → Chained World Layout → RegionRound World Layout
  after_chain valid_end walk (w, snapshot, resumed) =
      after_extent valid_end
        (record walk { vs_chunk = next_of resumed; vs_covered = cover walk.vs_covered resumed }) w
        snapshot

  abbrev pub dispatch :
      PoolBackend → ℕ → ℕ → List ℕ → RegionWalk Layout → World → RegionRound World Layout
  dispatch lfh valid_base valid_end bytes walk w =
      proceed (after_extent valid_end walk w) (walk_lfh region valid_base bytes walk.snapshot)
  dispatch vs valid_base valid_end bytes walk w =
      proceed (after_chain valid_end walk)
        (walk_vs region valid_base bytes memory traversal_limit walk.vs_chunk walk.snapshot w)
  dispatch segment valid_base valid_end bytes walk w =
      proceed (after_extent valid_end walk w)
        (walk_page_ranges region valid_base bytes walk.snapshot)
  dispatch large valid_base valid_end bytes walk w = done (some (w, walk.snapshot, ok tt))

  -- The special pool comes before the backends.
  abbrev pub decode_extent :
      Bool → ℕ → ℕ → List ℕ → RegionWalk Layout → World → RegionRound World Layout
  decode_extent true valid_base valid_end bytes walk w =
      proceed (after_extent valid_end walk w)
        (walk_special_pool region valid_base bytes walk.snapshot)
  decode_extent false valid_base valid_end bytes walk w =
      dispatch region.backend valid_base valid_end bytes walk w

  abbrev pub use_extent :
      ℕ → ℕ → RegionWalk Layout → World × Result (List ℕ) SnapshotError → RegionRound World Layout
  use_extent valid_base valid_end walk (w, ok bytes) =
      decode_extent region.heap.special valid_base valid_end bytes
        (count_recovered (length bytes) walk) w
  use_extent valid_base valid_end walk (w, err e) =
      if halts_walk e
      then done (some (w, walk.snapshot, err e))
      else proceed (go_on valid_end walk) (
          unreadable_space memory region valid_base (valid_end - valid_base) w
            (complain (unreadable_region valid_base e) walk.snapshot))

  -- Behind the gap before the valid region.
  abbrev pub enter : ℕ → ℕ → ℕ → RegionWalk Layout → World → RegionRound World Layout
  enter reported_base reported_size valid_base walk w =
      let valid_end = min (saturating_add reported_base reported_size) (requested_end region) in
      if leb valid_end valid_base
      then stall reported_base reported_size valid_base walk w
      else proceed (use_extent valid_base valid_end (record walk { consecutive_stalls = 0 }))
          (read_extent memory valid_base (valid_end - valid_base) w)

  abbrev pub filed_gap :
      ℕ → ℕ → ℕ → ℕ → RegionWalk Layout → World × Walked Layout × Bool → RegionRound World Layout
  filed_gap reported_base reported_size valid_base gap_start walk (w, snapshot, missed) =
      enter reported_base reported_size valid_base
        (record walk {
          snapshot =
              if missed
              then complain
                  (partly_committed region.address region.size gap_start (valid_base - gap_start))
                  snapshot
              else snapshot;
        })
        w

  abbrev pub answered_query :
      RegionWalk Layout → World × Result (ℕ × ℕ) SnapshotError → RegionRound World Layout
  answered_query walk (w, err e) =
      file_rest walk.cursor w (
        complain (unanswered_query walk.cursor (requested_end region - walk.cursor) e)
          walk.snapshot)
  answered_query walk (w, ok (reported_base, reported_size)) =
      let valid_base = min (max reported_base walk.cursor) (requested_end region) in
      let gap_start = min (max walk.cursor walk.vs_covered) valid_base in
      if ltb gap_start valid_base
      then proceed (filed_gap reported_base reported_size valid_base gap_start walk)
          (unreadable_space memory region gap_start (valid_base - gap_start) w walk.snapshot)
      else enter reported_base reported_size valid_base walk w

  abbrev pub polled_region :
      RegionWalk Layout → World × Result (Unit {0}) SnapshotError → RegionRound World Layout
  polled_region walk (w, err e) = done (some (w, walk.snapshot, err e))
  polled_region walk (w, ok _) =
      answered_query walk
        (memory.valid_region walk.cursor (saturating_sub (requested_end region) walk.cursor) w)

  unfoldable pub region_round : World × RegionWalk Layout → RegionRound World Layout
  region_round (w, walk) =
      if ltb walk.cursor (requested_end region)
      then polled_region walk (check_budget memory w)
      else done (some (w, walk.snapshot, ok tt))

  -- Every round moves the cursor or ends the loop.
  abbrev pub walk_extents : World → Walked Layout → Option (Ended World Layout)
  walk_extents w snapshot =
      iterate region_round (region.size + 1) (
        w,
        record {
          cursor = region.address;
          consecutive_stalls = 0;
          stalled_here = false;
          vs_chunk = some region.address;
          vs_covered = region.address;
          snapshot = snapshot;
        },
      )
      >>= λ ended. ended

  -- A page range that the big page table names is not read.
  abbrev pub walk_named :
      World → Walked Layout → PoolBackend → Option ℕ → Option (Ended World Layout)
  walk_named w snapshot segment (some tag) = some (
    w,
    record_span snapshot (
        base_span region region.address region.address region.size tag
          (first_state allocated region.states)),
    ok tt,
  )
  walk_named w snapshot backend known_tag = walk_extents w snapshot

  unfoldable pub walk_region : World → Walked Layout → Option (Ended World Layout)
  walk_region w snapshot = walk_named w snapshot region.backend region.known_tag
