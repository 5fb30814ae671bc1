-- ===== src/Index.antt =====
-- src/pool/index.rs: the index of a walk's spans, over the two parameters of a snapshot.
pub mod Order
pub mod Postings
pub mod Neighbours
pub mod Boundaries
pub mod Rounds
pub mod Holes
pub mod Cache
mod Tests
use dbgscope.Base.{
  ℕ, zero, suc, ◌+◌, ◌-◌, ◌≤◌, ◌≡◌, refl, Bool, true, false, not, ◌||◌, ◌&&◌, ◌==◌, if◌then◌else◌,
  Option, none, some, ◌>>=◌, then_some, List, [], ◌∷◌, ◌++◌, length, get_elem?, any, Result, ok,
  err,
}
use dbgscope.Base.Words.{checked_add, checked_sub, saturating_sub, u64_max}
use dbgscope.Base.Maps.{HashMap, get, write_entry}
use dbgscope.Base.Sorting.{sort_by_key}
use dbgscope.Pool.Same.{
  same_kind, same_backend, same_heap, same_subsegment, bool_discriminant, is_allocated,
  is_reusable_free,
}
use dbgscope.Pool.{PoolKind, PoolBackend, PoolState, HeapIdentity, PoolSpan, is_chunk, end}
use dbgscope.Snapshot.Spans.{PoolSnapshot, WalkStalls}
use mathlib.Core.Option

pub data Direction : Type 0 where
  underflow overflow : Direction

pub record Hole : Type 0 where
  pub span_index : ℕ
  pub address : ℕ
  pub size : ℕ
  pub state : PoolState
  pub distance : ℕ
  pub immediate : Bool

pub record RowIdentity : Type 0 where
  pub pool_kind : PoolKind
  pub numa_node : ℕ
  pub heap : HeapIdentity
  pub backend : PoolBackend
  pub subsegment : Option ℕ
  pub size_class : ℕ

-- `RowIdentity::from`.
abbrev pub row_of : PoolSpan → RowIdentity
row_of span = record {
  pool_kind = span.pool_kind;
  numa_node = span.numa_node;
  heap = span.heap;
  backend = span.backend;
  subsegment = span.subsegment;
  size_class = span.size_class;
}

-- The derived `PartialEq` of a row.
abbrev pub same_row : RowIdentity → RowIdentity → Bool
same_row a b =
    same_kind a.pool_kind b.pool_kind
    && a.numa_node == b.numa_node
    && same_heap a.heap b.heap
    && same_backend a.backend b.backend
    && same_subsegment a.subsegment b.subsegment
    && a.size_class == b.size_class

-- `(span.heap, span.usable_address)`, in the derived order of `HeapIdentity`.
abbrev pub address_key : PoolSpan → List ℕ
address_key span =
    span.heap.pool_state
    ∷ span.heap.heap
    ∷ bool_discriminant span.heap.special
    ∷ span.usable_address
    ∷ []

-- The three collections that the loop of `build` fills.
pub record Filled : Type 0 where
  pub postings : HashMap ℕ (List ℕ)
  pub row_postings : HashMap RowIdentity (List ℕ)
  pub span_rows : List RowIdentity

-- `entry(key).or_default().push(index)`.
abbrev pub push_index : ℕ → Option (List ℕ) → List ℕ
push_index index found = Option.get_or found [] ++ (index ∷ [])

unfoldable pub fill_span : ℕ → PoolSpan → Filled → Filled
fill_span index span filled =
    let row = row_of span in
    record {
      postings =
          if is_allocated span.state
          then write_entry ◌==◌ span.raw_tag (push_index index) filled.postings
          else filled.postings;
      row_postings = write_entry same_row row (push_index index) filled.row_postings;
      span_rows = filled.span_rows ++ (row ∷ []);
    }

unfoldable pub fill : ℕ → List PoolSpan → Filled → Filled
fill index [] filled = filled
fill index (span ∷ spans) filled = fill (suc index) spans (fill_span index span filled)

pub record PoolIndex (Layout Diagnostics : Type 0) : Type 0 where
  pub layout : Layout
  pub spans : List PoolSpan
  pub postings : HashMap ℕ (List ℕ)
  pub diagnostics : Diagnostics
  pub complete : Bool
  pub budget_expired : Bool
  pub stopped_after_matches : Option ℕ
  pub stalls : WalkStalls
  pub refused_chunks : ℕ
  pub unplaced_bytes : ℕ
  pub row_postings : HashMap RowIdentity (List ℕ)
  pub span_rows : List RowIdentity

abbrev pub sorted_spans : List PoolSpan → List PoolSpan
sorted_spans spans = sort_by_key address_key spans

abbrev pub nothing_filled : Filled
nothing_filled = record { postings = []; row_postings = []; span_rows = [] }

unfoldable pub same_boundary : PoolSpan → PoolSpan → Bool
same_boundary left right =
    same_kind left.pool_kind right.pool_kind
    && left.numa_node == right.numa_node
    && same_heap left.heap right.heap
    && same_backend left.backend right.backend
    && same_subsegment left.subsegment right.subsegment
    && is_chunk left.state
    && is_chunk right.state

abbrev pub distance_from : PoolSpan → Direction → PoolSpan → ℕ
distance_from origin Direction.underflow span = saturating_sub origin.usable_address (end span)
distance_from origin Direction.overflow span = saturating_sub span.usable_address (end origin)

abbrev pub hole_at : PoolSpan → Direction → ℕ → PoolSpan → Bool → Hole
hole_at origin direction index span first =
    let distance = distance_from origin direction span in
    record {
      span_index = index;
      address = span.usable_address;
      size = span.size;
      state = span.state;
      distance = distance;
      immediate = first && distance == 0;
    }

module _ {Layout Diagnostics : Type 0} where
  unfoldable pub build : PoolSnapshot Layout Diagnostics → PoolIndex Layout Diagnostics
  build snapshot =
      let spans = sorted_spans snapshot.spans in
      let filled = fill 0 spans nothing_filled in
      record {
        layout = snapshot.layout;
        spans = spans;
        postings = filled.postings;
        diagnostics = snapshot.diagnostics;
        complete = snapshot.complete;
        budget_expired = snapshot.budget_expired;
        stopped_after_matches = snapshot.stopped_after_matches;
        stalls = snapshot.stalls;
        refused_chunks = snapshot.refused_chunks;
        unplaced_bytes = snapshot.unplaced_bytes;
        row_postings = filled.row_postings;
        span_rows = filled.span_rows;
      }

  module _ (self : PoolIndex Layout Diagnostics) where
    unfoldable pub predecessor : ℕ → Option ℕ
    predecessor index = checked_sub index 1 >>= λ previous.
        get_elem? self.spans previous >>= λ left.
        get_elem? self.spans index >>= λ right. then_some (same_boundary left right) previous

    unfoldable pub successor : ℕ → Option ℕ
    successor index = checked_add index 1 >>= λ next. get_elem? self.spans index >>= λ left.
        get_elem? self.spans next >>= λ right. then_some (same_boundary left right) next

    abbrev pub step : Direction → ℕ → Option ℕ
    step Direction.underflow cursor = predecessor cursor
    step Direction.overflow cursor = successor cursor

    -- One round of the loop: the next span in the direction, unless it ends the holes.
    abbrev pub next_hole : Direction → ℕ → Option (ℕ × PoolSpan)
    next_hole direction cursor = step direction cursor >>= λ index.
        get_elem? self.spans index >>= λ span.
        then_some (not (is_allocated span.state)) (index, span)

    -- The loop, on fuel; the flag says that no hole is pushed yet. `self.spans[index]` is in range,
    -- since a neighbour is a span.
    unfoldable pub holes_from : ℕ → PoolSpan → Direction → ℕ → Bool → List Hole
    holes_from zero origin direction cursor first = []
    holes_from (suc fuel) origin direction cursor first = elim (next_hole direction cursor) [
      | none ↦ []
      | some found ↦
          let (index, span) = found in
          hole_at origin direction index span first ∷ holes_from fuel origin direction index false
    ]

    -- The cursor moves by one span in each round, so the spans bound the rounds.
    unfoldable pub holes : ℕ → Direction → List Hole
    holes allocation direction = elim (get_elem? self.spans allocation) [
      | none ↦ []
      | some origin ↦ holes_from (length self.spans) origin direction allocation true
    ]

    -- `selected_rows.insert`.
    abbrev pub insert_row : RowIdentity → List RowIdentity → List RowIdentity
    insert_row row rows = if any (same_row row) rows then rows else rows ++ (row ∷ [])

    unfoldable pub selected_rows : List ℕ → List RowIdentity → List RowIdentity
    selected_rows [] rows = rows
    selected_rows (index ∷ indexes) rows = elim (get_elem? self.span_rows index) [
      | none ↦ selected_rows indexes rows
      | some row ↦ selected_rows indexes (insert_row row rows)
    ]

    unfoldable pub rows_members : List RowIdentity → List ℕ
    rows_members [] = []
    rows_members (row ∷ rows) =
        Option.get_or (get same_row row self.row_postings) [] ++ rows_members rows

    unfoldable pub context_for_tag : ℕ → List ℕ
    context_for_tag tag =
        sort_by_key (λ index. index ∷ [])
          (rows_members (selected_rows (Option.get_or (get ◌==◌ tag self.postings) []) []))

    -- The sort key of a hole, with a span it lies in; `!` and `!=` are written as numbers.
    abbrev pub rank_of : PoolSpan → Hole → List ℕ
    rank_of origin hole =
        let span = Option.get_or (get_elem? self.spans hole.span_index) origin in
        bool_discriminant (not hole.immediate)
        ∷ bool_discriminant (not (is_reusable_free hole.state))
        ∷ bool_discriminant (
            not (same_backend span.backend origin.backend)
            || not (span.size_class == origin.size_class))
        ∷ hole.distance
        ∷ (u64_max - hole.size)
        ∷ hole.address
        ∷ []

    unfoldable pub ranked_holes : ℕ → Direction → List Hole
    ranked_holes allocation direction = elim (get_elem? self.spans allocation) [
      | none ↦ []
      | some origin ↦ sort_by_key (rank_of origin) (holes allocation direction)
    ]
