-- ===== src/Walk/Tests.antt =====
-- A memory whose bytes count up, and walks over it.
use dbgscope.Base.{
  ℕ, ◌+◌, ◌≡◌, refl, arith, Bool, true, false, ◌||◌, ◌%◌, none, some, List, [], ◌∷◌, ok, length,
}
use dbgscope.Base.Members.{contains}
use dbgscope.Base.Words.{saturating_add}
use dbgscope.Decode.Header.{SpecialPoolHeader}
use dbgscope.Layout.{PoolLayout}
use dbgscope.Pool.{PoolKind, PoolBackend, PoolState, is_coverage_gap}
use dbgscope.Snapshot.Spans.Matches.{IsHonest}
use dbgscope.Walk.Chunks.{Chained, walk_vs}
use dbgscope.Walk.Chunks.Chain.{IsWalked, walk_vs-IsWalked}
use dbgscope.Walk.Discovered.{walk_discovered_regions}
use dbgscope.Walk.Discovered.Whole.{IsOrdered, walk_discovered_regions-IsHonest}
use dbgscope.Walk.Extent.{Read, read_extent}
use dbgscope.Walk.Extent.Whole.{bytes_from, length-bytes_from, IsExtent, read_extent-IsExtent}
use dbgscope.Walk.Memory.{PoolMemory}
use dbgscope.Walk.Nodes.{Outcome, tree_nodes, walk_slist_nodes, insert_cached_chunk_candidates}
use dbgscope.Walk.Nodes.Trees.{IsNodes, tree_nodes-Returns}
use dbgscope.Walk.Nodes.Lists.{walk_slist_nodes-Returns}
use dbgscope.Walk.Nodes.Candidates.{is_candidate, contains-insert_cached_chunk_candidates}
use dbgscope.Walk.Region.{Ended, walk_region}
use dbgscope.Walk.Region.Kept.{IsKept}
use dbgscope.Walk.Region.Loop.{IsRegion}
use dbgscope.Walk.Region.Returns.{walk_region-IsReturned}
use dbgscope.Walk.Regions.{PoolRegion, Walked, unreadable_space}
use dbgscope.Walk.Regions.Gaps.{unreadable_space-Added}
use dbgscope.Walk.Regions.Tiles.{Added}
use dbgscope.Walk.Regions.Grows.{IsGrown}
use dbgscope.Walk.Slots.{walk_lfh, walk_page_ranges}
use dbgscope.Walk.Slots.Lfh.{IsSlot, walk_lfh-IsGrown}
use dbgscope.Walk.Slots.Cells.{IsCell, walk_page_ranges-IsGrown}
use dbgscope.Walk.Special.{special_pool_placement, walk_special_pool}
use dbgscope.Walk.Special.Placement.{
  IsPlaced, special_pool_placement-IsPlaced, IsBlock, walk_special_pool-IsGrown,
}

abbrev content : ℕ → ℕ
content address = address % 256

-- The first page of every query is committed, and the world counts the reads.
abbrev counting : PoolMemory ℕ
counting = record {
  read_exact = λ address size w. (w + 1, ok (bytes_from content address size));
  valid_region = λ address size w. (w, ok (address, 0x1000));
  interrupted = λ w. (w, ok false);
  out_of_budget = λ w. (w, false);
  committed_run = λ w address. (w, some (record { end = address + 0x1000; committed = true }));
}

abbrev lfh_region : PoolRegion
lfh_region = record {
  address = 0x10000;
  size = 0x2000;
  requested_size = none;
  pool_kind = PoolKind.non_paged_nx;
  numa_node = 0;
  heap = record { pool_state = 1; heap = 2; special = false };
  subsegment = none;
  backend = PoolBackend.lfh;
  unit_size = 0x40;
  bitmap = 0xff ∷ 0x0f ∷ [];
  heap_key = 0;
  pool_header = record {
    size = 0x10;
    previous_size = 0;
    pool_index = 0;
    block_size = 2;
    pool_type = 2;
    tag = 4;
  };
  vs_header_size = 0x10;
  vs_sizes_offset = 0;
  vs_skips_page_end = true;
  known_tag = none;
  states = PoolState.allocated ∷ [];
  reusable_chunks = [];
  cached_chunks = [];
  big_pool = [];
}

abbrev vs_region : PoolRegion
vs_region = record lfh_region { backend = PoolBackend.vs }

abbrev empty_walk : Walked ℕ
empty_walk = record {
  layout = 0;
  spans = [];
  diagnostics = [];
  complete = true;
  budget_expired = false;
  stopped_after_matches = none;
  match_limit = some (record { raw_tag = 7; paged = none; matches = 2 });
  matched_allocations = 0;
  stalls = record { pages = 0; skipped_bytes = 0; recovered_bytes = 0 };
  refused_chunks = 0;
  unplaced_bytes = 0;
}

abbrev page_bytes : List ℕ
page_bytes = bytes_from content 0x10000 0x100

allocated_fine : is_coverage_gap PoolState.allocated ≡ false
unfolding is_coverage_gap
allocated_fine = refl

lfh_region-IsRegion : IsRegion lfh_region
lfh_region-IsRegion = (omega arith, (λ _. omega arith), λ e. (omega arith, (allocated_fine, tt)))

vs_region-IsRegion : IsRegion vs_region
vs_region-IsRegion = (omega arith, (λ _. omega arith), λ e. (omega arith, (allocated_fine, tt)))

walk_discovered_regions-IsHonest_example :
    (e : Ended ℕ ℕ) × (walk_discovered_regions counting 100
        (lfh_region ∷ vs_region ∷ [])
        none
        false
        0
        empty_walk
      ≡ some e)
    × IsHonest e.1
    × IsOrdered counting 100 e
walk_discovered_regions-IsHonest_example =
    walk_discovered_regions-IsHonest counting 100 (lfh_region ∷ vs_region ∷ []) none false 0
      empty_walk
      (
        (lfh_region-IsRegion, (allocated_fine, tt)),
        ((vs_region-IsRegion, (allocated_fine, tt)), tt),
      )
      (λ address size w. length-bytes_from content address size) tt

walk_region-IsReturned_example :
    (e : Ended ℕ ℕ) × (walk_region counting 100 vs_region 0 empty_walk ≡ some e) × IsKept [] e.1
walk_region-IsReturned_example =
    walk_region-IsReturned counting 100 vs_region empty_walk 0 vs_region-IsRegion
      (λ address size w. length-bytes_from content address size) tt

walk_vs-IsWalked_example :
    (o : Chained ℕ ℕ) × (walk_vs vs_region 0x10000 page_bytes counting 100
        (some 0x10000)
        empty_walk
        0
      ≡ some o)
    × IsWalked vs_region 0x10000 [] o
walk_vs-IsWalked_example =
    walk_vs-IsWalked counting 100 vs_region 0x10000 page_bytes (some 0x10000) empty_walk 0
      (omega arith) (omega arith) tt

walk_lfh-IsGrown_example :
    (after : Walked ℕ) × (walk_lfh lfh_region 0x10000 page_bytes empty_walk ≡ some after)
    × IsGrown (IsSlot lfh_region 0x10000 page_bytes) [] after
walk_lfh-IsGrown_example =
    walk_lfh-IsGrown lfh_region 0x10000 page_bytes empty_walk (omega arith) (omega arith)
      (omega arith) tt

walk_page_ranges-IsGrown_example :
    (after : Walked ℕ) × (walk_page_ranges lfh_region 0x10000 page_bytes empty_walk ≡ some after)
    × IsGrown (IsCell lfh_region 0x10000 page_bytes) [] after
walk_page_ranges-IsGrown_example =
    walk_page_ranges-IsGrown lfh_region 0x10000 page_bytes empty_walk (omega arith)
      (omega arith, (allocated_fine, tt)) tt

walk_special_pool-IsGrown_example :
    (after : Walked ℕ) × (walk_special_pool lfh_region 0x10000 page_bytes empty_walk ≡ some after)
    × IsGrown (IsBlock 0x10000) [] after
walk_special_pool-IsGrown_example =
    walk_special_pool-IsGrown lfh_region 0x10000 page_bytes empty_walk tt

abbrev special_header : SpecialPoolHeader
special_header = record { tag = 7; requested = 0x68; header_size = 0x10; fill = 0x5a }

special_pool_placement-IsPlaced_example :
    IsPlaced 0x10000 special_header
      (length page_bytes)
      (special_pool_placement 0x10000 special_header page_bytes)
special_pool_placement-IsPlaced_example =
    special_pool_placement-IsPlaced 0x10000 special_header page_bytes (omega arith) (omega arith)

unreadable_space-Added_example :
    (o : ℕ × Walked ℕ × Bool) × (unreadable_space counting lfh_region 0x10000 0x1800 0 empty_walk
      ≡ some o)
    × Added 0x10000 (saturating_add 0x10000 0x1800) empty_walk o.1 o.2
unreadable_space-Added_example =
    unreadable_space-Added counting lfh_region 0x10000 empty_walk 0x1800 0 (omega arith)

read_extent-IsExtent_example :
    (o : Read ℕ) × (read_extent counting 0x10000 0x50000 0 ≡ some o)
    × IsExtent content 0x10000 0x50000 o.1
read_extent-IsExtent_example =
    read_extent-IsExtent counting content 0x10000 0x50000 (λ address size w e. refl) 0

abbrev tree_layout : PoolLayout
tree_layout = record {
  key = record { image = record { base = 0; size = 0; timestamp = 0; checksum = 0 }; session = 0 };
  globals = [];
  types =
      ("_RTL_RB_TREE", record { size = 16; fields = ("Root", 0) ∷ [] })
      ∷ ("_RTL_BALANCED_NODE", record { size = 24; fields = ("Left", 0) ∷ ("Right", 8) ∷ [] })
      ∷ ("_SLIST_HEADER", record { size = 16; fields = ("Alignment", 0) ∷ ("Region", 8) ∷ [] })
      ∷ [];
}

tree_nodes-Returns_example :
    (outcome : Outcome ℕ) × (tree_nodes counting tree_layout 0x10000 9 [] 0 ≡ some outcome)
    × IsNodes 9 outcome.2
tree_nodes-Returns_example = tree_nodes-Returns counting tree_layout 0x10000 9 [] 0

walk_slist_nodes-Returns_example :
    (outcome : Outcome ℕ) × (walk_slist_nodes counting tree_layout 0x10000 9 [] 0 ≡ some outcome)
    × IsNodes 9 outcome.2
walk_slist_nodes-Returns_example = walk_slist_nodes-Returns counting tree_layout 0x10000 9 [] 0

contains-insert_cached_chunk_candidates_example :
    contains 0x10fe0 (insert_cached_chunk_candidates [] 0x11010 0x10 0x10)
    ≡ is_candidate 0x10fe0 0x11010 0x10 0x10 || contains 0x10fe0 []
contains-insert_cached_chunk_candidates_example =
    contains-insert_cached_chunk_candidates 0x10fe0 0x10 [] 0x11010 0x10
