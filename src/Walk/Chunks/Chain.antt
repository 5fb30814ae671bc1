-- ===== src/Walk/Chunks/Chain.antt =====
-- What the walk over a chain of chunks records, and where the chain goes on.
use dbgscope.Base.{
  ℕ, ◌+◌, ◌-◌, ◌≤◌, ◌<◌, ◌≡◌, refl, arith, leb, Bool-cases, inl, inr, Option, none, some, List,
  length,
}
use dbgscope.Base.Words.{saturating_add, u64_max}
use dbgscope.Pool.{PoolSpan}
use dbgscope.Snapshot.Spans.Matches.{IsHonest, cleared}
use dbgscope.Walk.Memory.{PoolMemory}
use dbgscope.Walk.Regions.{PoolRegion, Walked}
use dbgscope.Walk.Regions.Grows.{Grows-self, IsGrown}
use dbgscope.Walk.Rounds.{iterate-returns}
use dbgscope.Walk.Chunks.{Chained, chunk_round, walk_from, walk_vs}
use dbgscope.Walk.Chunks.Fine.{IsChunk, IsResume, IsFine}
use dbgscope.Walk.Chunks.Loop.{chunk_round-Keeps}

-- What the walk over an extent answers.
abbrev pub IsWalked :
    {World Layout : Type 0} → PoolRegion → ℕ → List PoolSpan → Chained World Layout → Type 0
IsWalked region base before o =
    IsGrown (IsChunk region base) before o.1 × IsResume base o.1.complete o.2

module _ {World Layout : Type 0} (memory : PoolMemory World) (traversal_limit : ℕ)
    (region : PoolRegion) (base : ℕ) (bytes : List ℕ) where
  walk_from-IsWalked :
      (next : ℕ) (snapshot : Walked Layout) (w : World)
      → region.address + region.size < u64_max
      → base + length bytes < u64_max
      → base ≤ next
      → IsHonest snapshot
      → (o : Chained World Layout) × (walk_from region base bytes memory traversal_limit next
            snapshot w
          ≡ some o)
        × IsWalked region base snapshot.spans o
  walk_from-IsWalked next snapshot w ends fits low honest =
      let start : IsGrown (IsChunk region base) snapshot.spans snapshot =
        (honest, Grows-self (IsChunk region base) snapshot.spans) in
      elim (Bool-cases (leb (saturating_add base (length bytes)) next)) [
        | inl behind ↦ rw behind (_, refl, (start, (omega arith, low)))
        | inr inside ↦ rw inside (
            iterate-returns (chunk_round region base bytes memory traversal_limit)
              (λ s.
                IsFine region base bytes snapshot.spans s.1.lost s.1.snapshot
                × (base ≤ s.1.covered_through)
                × (s.1.covered_through ≤ s.1.resume)
                × (s.1.resume ≤ base + s.1.offset))
              (λ s. length bytes + 1 - s.1.offset)
              (λ o.
                IsGrown (IsChunk region base) snapshot.spans o.1 × IsResume base o.1.complete o.2)
              (chunk_round-Keeps memory traversal_limit region base bytes snapshot.spans ends fits)
              (length bytes + 2) _ ((start, refl), omega arith, low, omega arith) (omega arith))
      ]

  -- Over an extent, in a region and at bytes that end before the last address, the walk over the chain of
  -- chunks ends, whatever it decodes and whatever the memory manager answers. The snapshot stays honest.
  -- The spans that are added begin at or after the extent, have their block behind their header, and end in
  -- the subsegment. Where the chain is not lost, it goes on at or behind the end of what is covered, which
  -- is not before the extent; where it is lost, the snapshot does not say that it is complete.
  pub walk_vs-IsWalked :
      (expected : Option ℕ) (snapshot : Walked Layout) (w : World)
      → region.address + region.size < u64_max
      → base + length bytes < u64_max
      → IsHonest snapshot
      → (o : Chained World Layout) × (walk_vs region base bytes memory traversal_limit expected
            snapshot w
          ≡ some o)
        × IsWalked region base snapshot.spans o
  unfolding walk_vs
  walk_vs-IsWalked none snapshot w ends fits honest = (
    _,
    refl,
    (
      (
        cleared snapshot.spans snapshot.complete honest,
        Grows-self (IsChunk region base) snapshot.spans,
      ),
      refl,
    ),
  )
  walk_vs-IsWalked (some next) snapshot w ends fits honest = elim (Bool-cases (leb base next)) [
    | inl placed ↦ rw placed (walk_from-IsWalked next snapshot w ends fits (ground arith) honest)
    | inr inside ↦ rw inside (
      _,
      refl,
      (
        (
          cleared snapshot.spans snapshot.complete honest,
          Grows-self (IsChunk region base) snapshot.spans,
        ),
        refl,
      ),
    )
  ]
