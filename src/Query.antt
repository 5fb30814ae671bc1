-- ===== src/Query.antt =====
-- src/pool/query.rs: what a query answers from an index. The counts are lengths of vectors, which
-- stay below 2 ^ 63, so that adding one to them does not wrap.
pub mod Tagged
pub mod Census
pub mod Touching
mod Tests
use dbgscope.Base.{
  ℕ, zero, suc, ◌+◌, ◌-◌, ◌*◌, ◌^◌, Bool, true, false, not, ◌||◌, ◌&&◌, ◌==◌, if◌then◌else◌, Option,
  none, some, ◌>>=◌, then_some, List, [], ◌∷◌, length, get_elem?, map,
}
use dbgscope.Base.Words.{saturating_add, u64_max}
use dbgscope.Base.Maps.{HashMap, get, write_entry}
use dbgscope.Base.Sorting.{filter, sort_by_key}
use dbgscope.Pool.{PoolBackend, PoolSpan, is_paged, end, contains_address}
use dbgscope.Pool.Same.{is_allocated, same_backend}
use dbgscope.Snapshot.Spans.{WalkStalls}
use dbgscope.Index.{PoolIndex, predecessor, successor}
use mathlib.Core.Option

-- `DEFAULT_WALK_BUDGET`, in seconds.
abbrev pub default_walk_budget : ℕ
default_walk_budget = 120

pub record PoolWalk : Type 0 where
  pub refresh : Bool
  pub budget : Option ℕ

unfoldable pub cached : PoolWalk
cached = record { refresh = false; budget = some default_walk_budget }

unfoldable pub refreshed : PoolWalk
unfolding cached
refreshed = record cached { refresh = true }

unfoldable pub within : PoolWalk → ℕ → PoolWalk
within self budget = record self { budget = some budget }

unfoldable pub unbounded : PoolWalk → PoolWalk
unbounded self = record self { budget = none }

-- `PoolWalk::from`.
unfoldable pub from_bool : Bool → PoolWalk
unfolding cached
from_bool refresh = record cached { refresh = refresh }

pub data PoolPageFilter : Type 0 where
  paged non_paged : PoolPageFilter

pub record PoolNeighbourhood : Type 0 where
  pub chunk : PoolSpan
  pub previous : Option PoolSpan
  pub next : Option PoolSpan

pub record PoolTagSummary : Type 0 where
  pub display_tag : List ℕ
  pub raw_tag : ℕ
  pub allocations : ℕ
  pub total_bytes : ℕ
  pub paged_allocations : ℕ
  pub nonpaged_allocations : ℕ

pub data WalkCoverage : Type 0 where
  complete budget_expired partial : WalkCoverage

pub record PoolSnapshotReport (Layout Diagnostics : Type 0) : Type 0 where
  pub layout : Layout
  pub total_chunks : ℕ
  pub allocated_chunks : ℕ
  pub coverage : WalkCoverage
  pub stopped_after_matches : Option ℕ
  pub diagnostics : Diagnostics
  pub stalls : WalkStalls
  pub refused_chunks : ℕ
  pub unplaced_bytes : ℕ

-- `WalkCoverage::complete`.
unfoldable pub is_complete : WalkCoverage → Bool
is_complete complete = true
is_complete budget_expired = false
is_complete partial = false

unfoldable pub coverage_of : Bool → Bool → WalkCoverage
coverage_of true expired = complete
coverage_of false true = budget_expired
coverage_of false false = partial

abbrev pub page_matches : Option PoolPageFilter → PoolSpan → Bool
page_matches none span = true
page_matches (some paged) span = is_paged span.pool_kind
page_matches (some non_paged) span = not (is_paged span.pool_kind)

abbrev pub found_before : Option PoolSpan → List PoolSpan → List PoolSpan
found_before none rest = rest
found_before (some span) rest = span ∷ rest

-- `filter_map(|&position| spans.get(position))`.
abbrev pub look_up : List PoolSpan → List ℕ → List PoolSpan
look_up spans [] = []
look_up spans (position ∷ positions) =
    found_before (get_elem? spans position) (look_up spans positions)

-- The position of the first element that passes a test.
abbrev pub position_of {ℓ} : {A : Type ℓ} → (A → Bool) → List A → Option ℕ
position_of p [] = none
position_of p (x ∷ xs) = let rest = position_of p xs in if p x then some 0 else Option.map suc rest

abbrev pub touching : PoolSpan → PoolSpan → Bool
touching left right = same_backend left.backend PoolBackend.vs || end left == right.header_address

-- `entry(...).or_insert_with(...)`, and the updates of the entry.
abbrev pub count_span : PoolSpan → Option PoolTagSummary → PoolTagSummary
count_span span found =
    let entry = Option.get_or found (record {
      display_tag = span.display_tag;
      raw_tag = span.raw_tag;
      allocations = 0;
      total_bytes = 0;
      paged_allocations = 0;
      nonpaged_allocations = 0;
    }) in
    let counted = record entry {
      allocations = entry.allocations + 1;
      total_bytes = saturating_add entry.total_bytes span.size;
    } in
    if is_paged span.pool_kind
    then record counted { paged_allocations = entry.paged_allocations + 1 }
    else record counted { nonpaged_allocations = entry.nonpaged_allocations + 1 }

unfoldable pub count_spans : List PoolSpan → HashMap ℕ PoolTagSummary → HashMap ℕ PoolTagSummary
count_spans [] summaries = summaries
count_spans (span ∷ spans) summaries =
    count_spans spans (write_entry ◌==◌ span.raw_tag (count_span span) summaries)

-- Heaviest first, then by the displayed tag.
abbrev pub census_key : PoolTagSummary → List ℕ
census_key summary = (u64_max - summary.total_bytes) ∷ summary.display_tag

abbrev pub allocated_spans : List PoolSpan → List PoolSpan
allocated_spans spans = filter (λ span. is_allocated span.state) spans

module _ {Layout Diagnostics : Type 0} (index : PoolIndex Layout Diagnostics) where
  unfoldable pub report_of : PoolSnapshotReport Layout Diagnostics
  unfolding coverage_of
  report_of = record {
    layout = index.layout;
    total_chunks = length index.spans;
    allocated_chunks = length (allocated_spans index.spans);
    coverage = coverage_of index.complete index.budget_expired;
    stopped_after_matches = index.stopped_after_matches;
    diagnostics = index.diagnostics;
    stalls = index.stalls;
    refused_chunks = index.refused_chunks;
    unplaced_bytes = index.unplaced_bytes;
  }

  unfoldable pub collect_tag : ℕ → Option PoolPageFilter → List PoolSpan
  collect_tag raw_tag page_filter =
      filter (page_matches page_filter)
        (look_up index.spans (Option.get_or (get ◌==◌ raw_tag index.postings) []))

  unfoldable pub neighbourhood_at : ℕ → Option PoolNeighbourhood
  neighbourhood_at address =
      position_of (λ span. contains_address span address) index.spans >>= λ position.
      get_elem? index.spans position >>= λ chunk. some (record {
        chunk = chunk;
        previous = predecessor index position >>= λ previous.
            get_elem? index.spans previous >>= λ span. then_some (touching span chunk) span;
        next = successor index position >>= λ next.
            get_elem? index.spans next >>= λ span. then_some (touching chunk span) span;
      })

  unfoldable pub summarize_tags : List PoolTagSummary
  summarize_tags =
      sort_by_key census_key (map (λ entry. entry.1) (count_spans (allocated_spans index.spans) []))
