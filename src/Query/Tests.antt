-- ===== src/Query/Tests.antt =====
-- Queries over an index of two spans.
use dbgscope.Base.{ℕ, ◌≡◌, ◌↔◌, refl, true, false, none, some, [], ◌∷◌}
use dbgscope.Base.Sorting.{filter}
use dbgscope.Pool.{PoolKind, PoolBackend, PoolState, PoolSpan, is_chunk}
use dbgscope.Snapshot.Spans.{PoolSnapshot}
use dbgscope.Index.{PoolIndex, build, same_boundary, predecessor, successor}
use dbgscope.Index.Postings.{is_posted}
use dbgscope.Query.{
  PoolNeighbourhood, PoolPageFilter, collect_tag, page_matches, neighbourhood_at, summarize_tags,
  report_of,
}
use dbgscope.Query.Tagged.{LiesOn, collect_tag-build}
use dbgscope.Query.Census.{total_of, allocations_of, sides_of, summarize_tags-report_of}

abbrev paged_at : ℕ → ℕ → PoolSpan
paged_at address tag = record {
  header_address = address;
  usable_address = address;
  size = 0x20;
  requested_size = none;
  raw_tag = tag;
  display_tag = b'T' ∷ b'g' ∷ b's' ∷ b'm' ∷ [];
  pool_kind = PoolKind.paged;
  numa_node = 0;
  heap = record { pool_state = 1; heap = 2; special = false };
  subsegment = none;
  backend = PoolBackend.lfh;
  state = PoolState.allocated;
  size_class = 0x20;
}

abbrev two_spans : PoolSnapshot ℕ ℕ
two_spans = record {
  layout = 0;
  spans = paged_at 0x1000 1 ∷ paged_at 0x1020 2 ∷ [];
  diagnostics = 0;
  complete = true;
  budget_expired = false;
  stopped_after_matches = none;
  match_limit = none;
  matched_allocations = 0;
  stalls = record { pages = 0; skipped_bytes = 0; recovered_bytes = 0 };
  refused_chunks = 0;
  unplaced_bytes = 0;
}

abbrev two_indexed : PoolIndex ℕ ℕ
two_indexed = record {
  layout = 0;
  spans = paged_at 0x1000 1 ∷ paged_at 0x1020 2 ∷ [];
  postings = (1, 0 ∷ []) ∷ (2, 1 ∷ []) ∷ [];
  diagnostics = 0;
  complete = true;
  budget_expired = false;
  stopped_after_matches = none;
  stalls = record { pages = 0; skipped_bytes = 0; recovered_bytes = 0 };
  refused_chunks = 0;
  unplaced_bytes = 0;
  row_postings = [];
  span_rows = [];
}

collect_tag-build_example :
    (collect_tag (build two_spans) 1 (some PoolPageFilter.paged)
      ≡ filter
          (page_matches (some PoolPageFilter.paged))
          (filter (is_posted 1) (build two_spans).spans))
    × ((span : PoolSpan)
        → (page_matches (some PoolPageFilter.paged) span ≡ true)
          ↔ LiesOn (some PoolPageFilter.paged) span.pool_kind)
collect_tag-build_example = collect_tag-build two_spans 1 (some PoolPageFilter.paged)

summarize_tags-report_of_example :
    (total_of allocations_of (summarize_tags two_indexed)
      ≡ (report_of two_indexed).allocated_chunks)
    × (total_of sides_of (summarize_tags two_indexed) ≡ (report_of two_indexed).allocated_chunks)
summarize_tags-report_of_example = summarize_tags-report_of two_indexed

abbrev found_first : PoolNeighbourhood
found_first = record { chunk = paged_at 0x1000 1; previous = none; next = some (paged_at 0x1020 2) }

first_found : neighbourhood_at two_indexed 0x1010 ≡ some found_first
unfolding neighbourhood_at predecessor successor same_boundary is_chunk
first_found = refl
