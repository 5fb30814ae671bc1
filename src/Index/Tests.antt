-- ===== src/Index/Tests.antt =====
-- An index of three spans, and a cache of it.
use dbgscope.Base.{
  ℕ, ◌≡◌, ◌↔◌, refl, arith, true, false, ◌==◌, none, some, [], ◌∷◌, get_elem?, Result, ok, err, map,
}
use dbgscope.Pool.{PoolKind, PoolBackend, PoolState, PoolSpan, is_chunk}
use dbgscope.Snapshot.Spans.{PoolSnapshot}
use dbgscope.Index.{
  PoolIndex, Direction, build, predecessor, successor, same_boundary, holes, holes_from, row_of,
}
use dbgscope.Index.Postings.{members, positions, is_posted, build-postings}
use dbgscope.Index.Neighbours.{successor-predecessor}
use dbgscope.Index.Holes.{IsRun, holes-IsRun}
use dbgscope.Index.Cache.{
  CachedSnapshot, IsWhole, get_or_refresh, get_or_refresh-stale, get_or_refresh-again,
  get_or_refresh-IsWhole,
}

abbrev span_at : ℕ → PoolState → PoolSpan
span_at address state = record {
  header_address = address;
  usable_address = address;
  size = 0x20;
  requested_size = none;
  raw_tag = 0x6d73_6754;
  display_tag = b'T' ∷ b'g' ∷ b's' ∷ b'm' ∷ [];
  pool_kind = PoolKind.non_paged_nx;
  numa_node = 0;
  heap = record { pool_state = 1; heap = 2; special = false };
  subsegment = none;
  backend = PoolBackend.lfh;
  state = state;
  size_class = 0x20;
}

abbrev three_spans : PoolSnapshot ℕ ℕ
three_spans = record {
  layout = 0;
  spans =
      span_at 0x1040 PoolState.allocated
      ∷ span_at 0x1000 PoolState.allocated
      ∷ span_at 0x1020 PoolState.reusable_free
      ∷ [];
  diagnostics = 0;
  complete = true;
  budget_expired = false;
  stopped_after_matches = none;
  match_limit = none;
  matched_allocations = 0;
  stalls = record { pages = 0; skipped_bytes = 0; recovered_bytes = 0 };
  refused_chunks = 0;
  unplaced_bytes = 0;
}

abbrev three_indexed : PoolIndex ℕ ℕ
three_indexed = record {
  layout = 0;
  spans =
      span_at 0x1000 PoolState.allocated
      ∷ span_at 0x1020 PoolState.reusable_free
      ∷ span_at 0x1040 PoolState.allocated
      ∷ [];
  postings = (0x6d73_6754, 0 ∷ 2 ∷ []) ∷ [];
  diagnostics = 0;
  complete = true;
  budget_expired = false;
  stopped_after_matches = none;
  stalls = record { pages = 0; skipped_bytes = 0; recovered_bytes = 0 };
  refused_chunks = 0;
  unplaced_bytes = 0;
  row_postings = [];
  span_rows = [];
}

build-postings_example :
    ((tag : ℕ)
      → members tag (build three_spans).postings
        ≡ positions (is_posted tag) 0 (build three_spans).spans)
    × ((build three_spans).span_rows ≡ map row_of (build three_spans).spans)
build-postings_example = build-postings three_spans

successor-predecessor_example :
    (successor three_indexed 0 ≡ some 1) ↔ (predecessor three_indexed 1 ≡ some 0)
successor-predecessor_example = successor-predecessor three_indexed 0 1 (omega arith)

holes-IsRun_example :
    (origin : PoolSpan) × (get_elem? three_indexed.spans 0 ≡ some origin)
    × IsRun three_indexed.spans origin Direction.overflow 0 true
        (holes three_indexed 0 Direction.overflow)
holes-IsRun_example = holes-IsRun three_indexed 0 Direction.overflow (omega arith) (omega arith)

-- There is one hole, and it touches the allocation.
one_hole :
    holes three_indexed 0 Direction.overflow
    ≡ record {
      span_index = 1;
      address = 0x1020;
      size = 0x20;
      state = PoolState.reusable_free;
      distance = 0;
      immediate = true;
    }
      ∷ []
unfolding holes holes_from predecessor successor same_boundary is_chunk
one_hole = refl

-- Walks that count how often they are asked.
abbrev failing_walk : ℕ → ℕ × Result (PoolSnapshot ℕ ℕ) ℕ
failing_walk asked = (9, err 7)

abbrev good_walk : ℕ → ℕ × Result (PoolSnapshot ℕ ℕ) ℕ
good_walk asked = (9, ok three_spans)

abbrev cached_three : CachedSnapshot ℕ ℕ ℕ
cached_three = record { key = 5; index = three_indexed }

get_or_refresh-stale_example :
    (get_or_refresh ◌==◌ good_walk (some cached_three) 6 false 0).1
      ≡ (get_or_refresh ◌==◌ good_walk none 6 false 0).1
    × (get_or_refresh ◌==◌ good_walk (some cached_three) 6 false 0).2
      ≡ (get_or_refresh ◌==◌ good_walk none 6 false 0).2
get_or_refresh-stale_example = get_or_refresh-stale ◌==◌ good_walk 6 0 cached_three false refl

get_or_refresh-again_example :
    get_or_refresh ◌==◌ good_walk (get_or_refresh ◌==◌ good_walk none 6 true 0).0 6 false 1
    ≡ ((get_or_refresh ◌==◌ good_walk none 6 true 0).0, 1, ok (build three_spans))
get_or_refresh-again_example =
    get_or_refresh-again ◌==◌ good_walk 6 0 9 none 1 three_spans refl refl refl refl

get_or_refresh-IsWhole_example :
    IsWhole ◌==◌ good_walk (get_or_refresh ◌==◌ good_walk (some cached_three) 6 false 0).0
get_or_refresh-IsWhole_example =
    get_or_refresh-IsWhole ◌==◌ good_walk 6 0 (some cached_three) false (refl, refl)
