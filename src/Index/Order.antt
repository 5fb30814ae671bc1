-- ===== src/Index/Order.antt =====
-- The order of the spans of an index.
use dbgscope.Base.{ℕ, ◌≡◌, List}
use dbgscope.Base.Sorting.{IsSorted, has_key, filter, sort_by_key-IsSorted, filter-sort_by_key}
use dbgscope.Snapshot.Spans.{PoolSnapshot}
use dbgscope.Index.{build, address_key}

-- An index holds the spans of its snapshot in the order of heap and usable address, and the spans
-- of one heap and address in the order in which the walk found them: none is lost or made up.
pub build-spans :
    {Layout Diagnostics : Type 0} (snapshot : PoolSnapshot Layout Diagnostics)
    → IsSorted address_key (build snapshot).spans
      × ((k : List ℕ)
          → filter (has_key address_key k) (build snapshot).spans
            ≡ filter (has_key address_key k) snapshot.spans)
unfolding build
build-spans snapshot = (
  sort_by_key-IsSorted address_key snapshot.spans,
  λ k. filter-sort_by_key address_key k snapshot.spans,
)
