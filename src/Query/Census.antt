-- ===== src/Query/Census.antt =====
-- The census of the tags.
use dbgscope.Base.{
  ℕ, suc, ◌+◌, ◌≡◌, refl, ap, ◌∙◌, arith, ◌==◌, Bool-cases, inl, inr, none, some, List, [], ◌∷◌,
  length, map,
}
use dbgscope.Base.Maps.{HashMap, write_entry}
use dbgscope.Base.Sorting.{insert_by_key, sort_by_key, lex_leb}
use dbgscope.Pool.{PoolSpan, is_paged}
use dbgscope.Index.{PoolIndex}
use dbgscope.Query.{
  PoolTagSummary, count_span, count_spans, allocated_spans, census_key, summarize_tags, report_of,
}

-- The sum of one count over a census.
abbrev pub total_of : (PoolTagSummary → ℕ) → List PoolTagSummary → ℕ
total_of count [] = 0
total_of count (s ∷ census) = count s + total_of count census

abbrev pub allocations_of : PoolTagSummary → ℕ
allocations_of s = s.allocations

-- The allocations on either side of the pool.
abbrev pub sides_of : PoolTagSummary → ℕ
sides_of s = s.paged_allocations + s.nonpaged_allocations

module _ (count : PoolTagSummary → ℕ) where
  total_of-insert :
      (s : PoolTagSummary) (census : List PoolTagSummary)
      → total_of count (insert_by_key census_key s census) ≡ count s + total_of count census
  total_of-insert s [] = refl
  total_of-insert s (t ∷ census) = elim (Bool-cases (lex_leb (census_key s) (census_key t))) [
    | inl e ↦ rw e
    | inr e ↦ rw e (omega (arith, total_of-insert s census))
  ]

  total_of-sort :
      (census : List PoolTagSummary)
      → total_of count (sort_by_key census_key census) ≡ total_of count census
  total_of-sort [] = refl
  total_of-sort (s ∷ census) =
      total_of-insert s (sort_by_key census_key census)
      ∙ ap (λ n. count s + n) (total_of-sort census)

  -- A count to which each span adds one.
  module _ (first : (span : PoolSpan) → count (count_span span none) ≡ 1)
      (more : (span : PoolSpan) (s : PoolTagSummary)
        → count (count_span span (some s)) ≡ suc (count s)) where
    total_of-write_entry :
        (span : PoolSpan) (summaries : HashMap ℕ PoolTagSummary)
        → total_of count
            (map (λ entry. entry.1) (write_entry ◌==◌ span.raw_tag (count_span span) summaries))
          ≡ suc (total_of count (map (λ entry. entry.1) summaries))
    total_of-write_entry span [] = omega (arith, first span)
    total_of-write_entry span ((tag, s) ∷ summaries) = elim (Bool-cases (span.raw_tag == tag)) [
      | inl same ↦ rw same (omega (arith, more span s))
      | inr other ↦ rw other (omega (arith, total_of-write_entry span summaries))
    ]

    total_of-count_spans :
        (spans : List PoolSpan) (summaries : HashMap ℕ PoolTagSummary)
        → total_of count (map (λ entry. entry.1) (count_spans spans summaries))
          ≡ length spans + total_of count (map (λ entry. entry.1) summaries)
    unfolding count_spans
    total_of-count_spans [] summaries = omega arith
    total_of-count_spans (span ∷ spans) summaries = omega (
      arith,
      total_of-count_spans spans (write_entry ◌==◌ span.raw_tag (count_span span) summaries),
      total_of-write_entry span summaries,
    )

first_side : (span : PoolSpan) → sides_of (count_span span none) ≡ 1
first_side span = elim (Bool-cases (is_paged span.pool_kind)) [ inl p ↦ rw p | inr n ↦ rw n ]

more_sides :
    (span : PoolSpan) (s : PoolTagSummary) → sides_of (count_span span (some s)) ≡ suc (sides_of s)
more_sides span s = elim (Bool-cases (is_paged span.pool_kind)) [
  | inl p ↦ rw p (omega arith)
  | inr n ↦ rw n (omega arith)
]

first_allocation : (span : PoolSpan) → allocations_of (count_span span none) ≡ 1
first_allocation span = elim (Bool-cases (is_paged span.pool_kind)) [ inl p ↦ rw p | inr n ↦ rw n ]

more_allocations :
    (span : PoolSpan) (s : PoolTagSummary)
    → allocations_of (count_span span (some s)) ≡ suc (allocations_of s)
more_allocations span s = elim (Bool-cases (is_paged span.pool_kind)) [
  | inl p ↦ rw p (omega arith)
  | inr n ↦ rw n (omega arith)
]

-- The census and the report of an index agree: the allocations of all tags together are those that
-- the report counts, and so are the paged and the nonpaged ones of all tags together.
pub summarize_tags-report_of :
    {Layout Diagnostics : Type 0} (index : PoolIndex Layout Diagnostics)
    → (total_of allocations_of (summarize_tags index) ≡ (report_of index).allocated_chunks)
      × (total_of sides_of (summarize_tags index) ≡ (report_of index).allocated_chunks)
unfolding summarize_tags report_of
summarize_tags-report_of index =
    let spans = allocated_spans index.spans in
    (
      total_of-sort allocations_of _
          ∙ total_of-count_spans allocations_of first_allocation more_allocations spans []
          ∙ omega arith,
      total_of-sort sides_of _
          ∙ total_of-count_spans sides_of first_side more_sides spans []
          ∙ omega arith,
    )
