-- ===== src/Walk/Discovered/Whole.antt =====
-- The whole walk through the discovered regions.
use dbgscope.Base.{
  ℕ, ◌+◌, ◌≡◌, refl, ap, sym, subst, Bool, true, false, ◌&&◌, Bool-cases, inl, inr, Option, some,
  ◌>>=◌, List, [], ◌∷◌, length, All, Result, ok, err, ◌==◌,
}
use dbgscope.Base.Sorting.{lex_leb, insert_by_key, sort_by_key, IsSorted, sort_by_key-IsSorted}
use dbgscope.Index.{address_key}
use dbgscope.Pool.{PoolBackend, PoolState, is_coverage_gap, lfh, vs, segment, large, allocated}
use dbgscope.Snapshot.Spans.{match_limit_reached}
use dbgscope.Snapshot.Spans.Matches.{IsHonest, cleared, record_span-IsHonest}
use dbgscope.Walk.Memory.{
  SnapshotError, interrupted, budget_expired, read_failed, region_query, region_validation,
  layout_failed, interrupt_query, invalid_data, PoolMemory,
}
use dbgscope.Walk.Regions.{PoolRegion, Walked, first_state, base_span, walk_large}
use dbgscope.Walk.Region.{Ended}
use dbgscope.Walk.Region.Loop.{IsRegion, ReadsExactly}
use dbgscope.Walk.Region.Returns.{walk_region-IsReturned}
use dbgscope.Walk.Discovered.{
  Tour, visit_region, after_region, tour, say_expired, sort_walked, end_tour,
  walk_discovered_regions,
}

-- A well-formed region no state of which is a gap in the coverage.
abbrev pub IsDiscovered : PoolRegion → Type 0
IsDiscovered region = IsRegion region × All (λ state. is_coverage_gap state ≡ false) region.states

All-insert :
    {A : Type 0} (P : A → Type 0) (key : A → List ℕ) (x : A) (xs : List A)
    → P x
    → All P xs
    → All P (insert_by_key key x xs)
All-insert P key x [] h k = (h, tt)
All-insert P key x (y ∷ ys) h k = elim (Bool-cases (lex_leb (key x) (key y))) [
  | inl e ↦ rw e (h, k)
  | inr e ↦ rw e (k.0, All-insert P key x ys h k.1)
]

All-sort :
    {A : Type 0} (P : A → Type 0) (key : A → List ℕ) (xs : List A)
    → All P xs
    → All P (sort_by_key key xs)
All-sort P key [] h = tt
All-sort P key (x ∷ xs) h = All-insert P key x (sort_by_key key xs) h.0 (All-sort P key xs h.1)

large_state :
    (states : List PoolState)
    → All (λ state. is_coverage_gap state ≡ false) states
    → is_coverage_gap (first_state allocated states) ≡ false
unfolding is_coverage_gap
large_state [] h = refl
large_state (s ∷ states) h = h.0

module _ {World Layout : Type 0} (memory : PoolMemory World) (traversal_limit : ℕ) where
  -- A walk returns, and its snapshot is honest.
  abbrev IsVisited : Option (Ended World Layout) → Type 0
  IsVisited walked = (e : Ended World Layout) × (walked ≡ some e) × IsHonest e.1

  abbrev IsToured : Option (Tour World Layout) → Type 0
  IsToured toured = (t : Tour World Layout) × (toured ≡ some t) × IsHonest t.snapshot

  walk_large-IsHonest :
      (region : PoolRegion) (snapshot : Walked Layout)
      → IsDiscovered region
      → IsHonest snapshot
      → IsHonest (walk_large region snapshot)
  unfolding walk_large base_span
  walk_large-IsHonest region snapshot is honest = elim (Bool-cases (region.size == 0)) [
    | inl empty ↦ rw (IsHonest, empty) honest
    | inr full ↦
        rw (IsHonest, full)
          (record_span-IsHonest snapshot _ honest
            (ap (λ g. g && snapshot.complete) (large_state region.states is.1)))
  ]

  visit_region-IsVisited :
      (region : PoolRegion) (backend : PoolBackend) (w : World) (snapshot : Walked Layout)
      → IsDiscovered region
      → ReadsExactly memory
      → IsHonest snapshot
      → IsVisited (visit_region memory traversal_limit region backend w snapshot)
  visit_region-IsVisited region large w snapshot is exact honest =
      (_, refl, walk_large-IsHonest region snapshot is honest)
  visit_region-IsVisited region lfh w snapshot is exact honest =
      let (e, answered, kept) =
        walk_region-IsReturned memory traversal_limit region snapshot w is.0 exact honest in
      (e, answered, kept.0)
  visit_region-IsVisited region vs w snapshot is exact honest =
      let (e, answered, kept) =
        walk_region-IsReturned memory traversal_limit region snapshot w is.0 exact honest in
      (e, answered, kept.0)
  visit_region-IsVisited region segment w snapshot is exact honest =
      let (e, answered, kept) =
        walk_region-IsReturned memory traversal_limit region snapshot w is.0 exact honest in
      (e, answered, kept.0)

  after_region-IsToured :
      (walked : ℕ) (expired : Bool) (next : World → Walked Layout → Option (Tour World Layout))
      (e : Ended World Layout)
      → IsHonest e.1
      → ((w : World) (snapshot : Walked Layout) → IsHonest snapshot → IsToured (next w snapshot))
      → IsToured (after_region memory traversal_limit walked expired next (some e))
  after_region-IsToured walked expired next (w, snapshot, ok _) honest more =
      elim (Bool-cases (match_limit_reached snapshot)) [
        | inl reached ↦ rw (IsToured, reached) (_, refl, honest)
        | inr goes ↦ rw (IsToured, goes) (more w snapshot honest)
      ]
  after_region-IsToured walked expired next (w, snapshot, err budget_expired) honest more =
      (_, refl, honest)
  after_region-IsToured walked expired next (w, snapshot, err interrupted) honest more =
      (_, refl, honest)
  after_region-IsToured walked expired next (w, snapshot, err (read_failed a b)) honest more =
      (_, refl, honest)
  after_region-IsToured walked expired next (w, snapshot, err (region_query a b)) honest more =
      (_, refl, honest)
  after_region-IsToured walked expired next (w, snapshot, err (region_validation a b c d)) honest
        more =
      (_, refl, honest)
  after_region-IsToured walked expired next (w, snapshot, err layout_failed) honest more =
      (_, refl, honest)
  after_region-IsToured walked expired next (w, snapshot, err interrupt_query) honest more =
      (_, refl, honest)
  after_region-IsToured walked expired next (w, snapshot, err invalid_data) honest more =
      (_, refl, honest)

  tour-IsToured :
      (regions : List PoolRegion) (walked : ℕ) (expired : Bool) (w : World)
      (snapshot : Walked Layout)
      → All IsDiscovered regions
      → ReadsExactly memory
      → IsHonest snapshot
      → IsToured (tour memory traversal_limit regions walked expired w snapshot)
  unfolding tour
  tour-IsToured [] walked expired w snapshot all exact honest = (_, refl, honest)
  tour-IsToured (region ∷ regions) walked expired w snapshot all exact honest =
      let (e, answered, held) =
        visit_region-IsVisited region region.backend w snapshot all.0 exact honest in
      subst
        (λ x. IsToured (
          after_region memory traversal_limit walked expired
            (tour memory traversal_limit regions (walked + 1) expired) x))
        (sym answered)
        (after_region-IsToured walked expired
          (tour memory traversal_limit regions (walked + 1) expired) e held
          (λ v later holds. tour-IsToured regions (walked + 1) expired v later all.1 exact holds))

  -- The spans are in the order of their heaps and addresses where no error ends the walk.
  abbrev pub IsOrdered : Ended World Layout → Type 0
  IsOrdered (w, snapshot, ok _) = IsSorted address_key snapshot.spans
  IsOrdered (w, snapshot, err e) = Unit

  said-IsHonest :
      (budget : Option ℕ) (walked discovered : ℕ) (expired : Bool) (snapshot : Walked Layout)
      → IsHonest snapshot
      → IsHonest (sort_walked (say_expired budget walked discovered expired snapshot))
  said-IsHonest budget walked discovered false snapshot honest =
      All-sort (λ span. is_coverage_gap span.state && snapshot.complete ≡ false) address_key
        snapshot.spans honest
  said-IsHonest budget walked discovered true snapshot honest =
      All-sort (λ span. is_coverage_gap span.state && false ≡ false) address_key snapshot.spans
        (cleared snapshot.spans snapshot.complete honest)

  end_tour-IsOrdered :
      (budget : Option ℕ) (discovered : ℕ) (w : World) (snapshot : Walked Layout) (walked : ℕ)
      (outcome : Result Bool SnapshotError)
      → IsHonest snapshot
      → IsHonest (end_tour memory traversal_limit budget discovered w snapshot walked outcome).1
        × IsOrdered (end_tour memory traversal_limit budget discovered w snapshot walked outcome)
  end_tour-IsOrdered budget discovered w snapshot walked (err e) honest = (honest, tt)
  end_tour-IsOrdered budget discovered w snapshot walked (ok expired) honest = (
    said-IsHonest budget walked discovered expired snapshot honest,
    sort_by_key-IsSorted address_key (say_expired budget walked discovered expired snapshot).spans,
  )

  -- The walk through regions that end before the last address, whose slots, for a subsegment, have a size,
  -- whose cells, for a page range, have states, and no state of which is a gap in the coverage, ends, over
  -- a memory whose reads have as many bytes as were asked for, whatever else it and the clock answer. An honest snapshot stays honest: one that says it
  -- is complete has no span over memory that may have been missed. Where no error ends the walk, the spans
  -- are in the order of their heaps and addresses.
  pub walk_discovered_regions-IsHonest :
      (regions : List PoolRegion) (budget : Option ℕ) (expired : Bool) (w : World)
      (snapshot : Walked Layout)
      → All IsDiscovered regions
      → ReadsExactly memory
      → IsHonest snapshot
      → (e : Ended World Layout) × (walk_discovered_regions memory traversal_limit regions budget
            expired w snapshot
          ≡ some e)
        × IsHonest e.1
        × IsOrdered e
  unfolding walk_discovered_regions
  walk_discovered_regions-IsHonest regions budget expired w snapshot all exact honest =
      let (t, toured, held) = tour-IsToured regions 0 expired w snapshot all exact honest in
      let (holds, ordered) =
        end_tour-IsOrdered budget (length regions) t.world t.snapshot t.walked t.outcome held in
      (
        _,
        ap
            (λ x. x >>= λ y. some (
              end_tour memory traversal_limit budget (length regions) y.world y.snapshot y.walked
                y.outcome))
            toured,
        holds,
        ordered,
      )
