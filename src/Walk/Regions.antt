-- ===== src/Walk/Regions.antt =====
-- src/pool/snapshot.rs: the regions that a walk goes through, and the spans over what it does not decode.
-- The diagnostics of a walk are the complaints in their order.
pub mod Tiles
pub mod Gaps
pub mod Grows
use dbgscope.Base.{
  ℕ, ◌+◌, ◌-◌, ◌≡◌, Bool, true, false, not, ◌&&◌, ◌||◌, ◌==◌, ltb, leb, if◌then◌else◌, min, Option,
  none, some, List, [], ◌∷◌, ◌++◌,
}
use dbgscope.Base.Maps.{HashMap}
use dbgscope.Base.Words.{saturating_add}
use dbgscope.Decode.Header.{PoolHeaderLayout}
use dbgscope.Decode.Tags.{display_tag}
use dbgscope.Pool.{
  PoolKind, PoolBackend, PoolState, HeapIdentity, PoolSpan, is_coverage_gap, allocated, unreadable,
  uncommitted,
}
use dbgscope.Snapshot.Spans.{PoolSnapshot, record_span}
use dbgscope.Walk.Complaints.{Complaint}
use dbgscope.Walk.Memory.{PoolMemory, CommitRun}
use dbgscope.Walk.Rounds.{Round, again, done, iterate}
use mathlib.Core.Option

pub record BigPageEntry : Type 0 where
  pub tag : ℕ  -- u32
  pub size : ℕ

-- The shared sets are lists without repetition.
pub record PoolRegion : Type 0 where
  pub address : ℕ
  pub size : ℕ
  pub requested_size : Option ℕ
  pub pool_kind : PoolKind
  pub numa_node : ℕ
  pub heap : HeapIdentity
  pub subsegment : Option ℕ
  pub backend : PoolBackend
  pub unit_size : ℕ  -- u32
  pub bitmap : List ℕ
  pub heap_key : ℕ
  pub pool_header : PoolHeaderLayout
  pub vs_header_size : ℕ
  pub vs_sizes_offset : ℕ
  pub vs_skips_page_end : Bool
  pub known_tag : Option ℕ
  pub states : List PoolState
  pub reusable_chunks : List ℕ
  pub cached_chunks : List ℕ
  pub big_pool : HashMap ℕ BigPageEntry

abbrev pub Walked : Type 0 → Type 0
Walked Layout = PoolSnapshot Layout (List Complaint)

unfoldable pub base_span : PoolRegion → ℕ → ℕ → ℕ → ℕ → PoolState → PoolSpan
base_span region header usable size tag state = record {
  header_address = header;
  usable_address = usable;
  size = size;
  requested_size = region.requested_size;
  raw_tag = tag;
  display_tag = display_tag tag;
  pool_kind = region.pool_kind;
  numa_node = region.numa_node;
  heap = region.heap;
  subsegment = region.subsegment;
  backend = region.backend;
  state = state;
  size_class = region.unit_size;
}

-- `first().copied().unwrap_or(state)`.
abbrev pub first_state : PoolState → List PoolState → PoolState
first_state other [] = other
first_state other (state ∷ states) = state

module _ {Layout : Type 0} where
  -- `diagnostics.push`.
  abbrev pub complain : Complaint → Walked Layout → Walked Layout
  complain complaint snapshot = record snapshot {
    diagnostics = snapshot.diagnostics ++ (complaint ∷ []);
  }

  -- `complete = false`.
  abbrev pub not_complete : Walked Layout → Walked Layout
  not_complete snapshot = record snapshot { complete = false }

  module _ (region : PoolRegion) where
    unfoldable pub walk_large : Walked Layout → Walked Layout
    walk_large snapshot =
        if region.size == 0
        then snapshot
        else record_span snapshot (
            base_span region region.address region.address region.size
              (Option.get_or region.known_tag 0) (first_state allocated region.states))

    unfoldable pub gap : ℕ → ℕ → PoolState → Walked Layout → Walked Layout × Bool
    gap address size state snapshot =
        if size == 0
        then (snapshot, false)
        else let missed = is_coverage_gap state in
          (
            record_span (if missed then not_complete snapshot else snapshot)
                (base_span region address address size 0 state),
            missed,
          )

-- The cursor, whether coverage was missed, and the snapshot.
pub record GapWalk (Layout : Type 0) : Type 0 where
  pub cursor : ℕ
  pub missed : Bool
  pub snapshot : Walked Layout

module _ {World Layout : Type 0} (memory : PoolMemory World) (region : PoolRegion) where
  module _ (end : ℕ) where
    -- The world, the snapshot, and whether any of the space counted against coverage.
    abbrev pub close_gap :
        GapWalk Layout → World → Round (World × GapWalk Layout) (World × Walked Layout × Bool)
    close_gap walk w =
        let (snapshot, missed) =
          gap region walk.cursor (end - walk.cursor) unreadable walk.snapshot in
        done (w, snapshot, missed || walk.missed)

    abbrev pub file_run :
        GapWalk Layout
        → World
        → ℕ
        → PoolState
        → Round (World × GapWalk Layout) (World × Walked Layout × Bool)
    file_run walk w stop state =
        let (snapshot, missed) = gap region walk.cursor (stop - walk.cursor) state walk.snapshot in
        again (w, record { cursor = stop; missed = walk.missed || missed; snapshot = snapshot })

    -- A run that does not advance is no answer.
    abbrev pub split_run :
        GapWalk Layout
        → World × Option CommitRun
        → Round (World × GapWalk Layout) (World × Walked Layout × Bool)
    split_run walk (w, none) = close_gap walk w
    split_run walk (w, some run) =
        if not (ltb walk.cursor run.end)
        then close_gap walk w
        else file_run walk w (min run.end end) (if run.committed then unreadable else uncommitted)

    unfoldable pub gap_round :
        World × GapWalk Layout → Round (World × GapWalk Layout) (World × Walked Layout × Bool)
    gap_round (w, walk) =
        if ltb walk.cursor end
        then split_run walk (memory.committed_run w walk.cursor)
        else done (w, walk.snapshot, walk.missed)

  -- Every round moves the cursor or ends the loop.
  unfoldable pub unreadable_space :
      ℕ → ℕ → World → Walked Layout → Option (World × Walked Layout × Bool)
  unreadable_space address size w snapshot =
      if size == 0
      then some (w, snapshot, false)
      else iterate (gap_round (saturating_add address size)) (size + 1)
          (w, record { cursor = address; missed = false; snapshot = snapshot })
