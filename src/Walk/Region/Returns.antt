-- ===== src/Walk/Region/Returns.antt =====
-- The walk through a region ends, and keeps the snapshot honest.
use dbgscope.Base.{ℕ, ◌+◌, ◌-◌, ◌≡◌, refl, ap, ◌∙◌, arith, ◌&&◌, Option, none, some, ◌>>=◌, List}
use dbgscope.Pool.{PoolBackend, PoolSpan, lfh, vs, segment, large, allocated}
use dbgscope.Snapshot.Spans.Matches.{IsHonest}
use dbgscope.Walk.Memory.{PoolMemory}
use dbgscope.Walk.Regions.{PoolRegion, Walked, base_span}
use dbgscope.Walk.Regions.Grows.{Grows-self, record_span-IsGrown}
use dbgscope.Walk.Rounds.{iterate-returns}
use dbgscope.Walk.Region.{Ended, requested_end, region_round, walk_extents, walk_named, walk_region}
use dbgscope.Walk.Region.Kept.{AnySpan, IsKept}
use dbgscope.Walk.Region.Loop.{IsRegion, ReadsExactly, IsRegionWalk, IsEnded, region_round-Keeps}
use dbgscope.Walk.Slots.Cells.{first_lem}

-- A walk ends, and its snapshot is kept.
abbrev pub IsReturned :
    {World Layout : Type 0} → List PoolSpan → Option (Ended World Layout) → Type 0
IsReturned {World} {Layout} before walked =
    (e : Ended World Layout) × (walked ≡ some e) × IsKept before e.1

joined :
    {World Layout : Type 0} (before : List PoolSpan) (walked : Option (Option (Ended World Layout)))
    → (o : Option (Ended World Layout)) × (walked ≡ some o)
      × ((e : Ended World Layout) × (o ≡ some e) × IsKept before e.1)
    → IsReturned before (walked >>= λ ended. ended)
joined before walked (o, answered, (e, ended, kept)) =
    (e, (ap (λ x. x >>= λ y. y) answered ∙ ended), kept)

module _ {World Layout : Type 0} (memory : PoolMemory World) (traversal_limit : ℕ)
    (region : PoolRegion) (snapshot : Walked Layout) where
  walk_extents-IsReturned :
      (w : World)
      → IsRegion region
      → ReadsExactly memory
      → IsHonest snapshot
      → IsReturned snapshot.spans (walk_extents memory traversal_limit region w snapshot)
  walk_extents-IsReturned w is exact honest = joined snapshot.spans _ (
      iterate-returns (region_round memory traversal_limit region)
        (IsRegionWalk memory traversal_limit region snapshot.spans is exact)
        (λ s. requested_end region - s.1.cursor)
        (IsEnded memory traversal_limit region snapshot.spans is exact)
        (region_round-Keeps memory traversal_limit region snapshot.spans is exact) (region.size + 1)
        _ ((honest, Grows-self AnySpan snapshot.spans), omega arith) (omega arith))

  named-IsReturned :
      (w : World) (backend : PoolBackend) (known_tag : Option ℕ)
      → region.backend ≡ backend
      → IsRegion region
      → ReadsExactly memory
      → IsHonest snapshot
      → IsReturned snapshot.spans
          (walk_named memory traversal_limit region w snapshot backend known_tag)
  unfolding base_span
  named-IsReturned w segment (some tag) e is exact honest =
      let states = is.2 e in
      (
        _,
        refl,
        record_span-IsGrown AnySpan snapshot.spans snapshot _
            (honest, Grows-self AnySpan snapshot.spans)
            (ap (λ g. g && snapshot.complete) (first_lem allocated region.states states.0 states.1))
            tt,
      )
  named-IsReturned w segment none e is exact honest = walk_extents-IsReturned w is exact honest
  named-IsReturned w lfh known_tag e is exact honest = walk_extents-IsReturned w is exact honest
  named-IsReturned w vs known_tag e is exact honest = walk_extents-IsReturned w is exact honest
  named-IsReturned w large known_tag e is exact honest = walk_extents-IsReturned w is exact honest

  -- The walk through a region that ends before the last address, whose slots, if it is a subsegment, have
  -- a size, and whose cells, if it is a page range, have states, none of them a gap in the coverage, ends,
  -- over a memory whose reads have as many bytes as were asked for, whatever else the memory, the clock and the memory manager answer, queries that never
  -- advance included. The spans that were recorded before stand first and in their order, also where an
  -- error halts the walk, and an honest snapshot stays honest.
  pub walk_region-IsReturned :
      (w : World)
      → IsRegion region
      → ReadsExactly memory
      → IsHonest snapshot
      → (e : Ended World Layout) × (walk_region memory traversal_limit region w snapshot ≡ some e)
        × IsKept snapshot.spans e.1
  unfolding walk_region
  walk_region-IsReturned w is exact honest =
      named-IsReturned w region.backend region.known_tag refl is exact honest
