-- ===== src/Walk/Chunks/Fine.antt =====
-- What a chunk adds to a snapshot.
use dbgscope.Base.{
  ℕ, ◌+◌, ◌≤◌, ◌<◌, ◌≡◌, refl, ap, subst, arith, Bool, true, false, ◌&&◌, ◌==◌, ltb, leb,
  if◌then◌else◌, Bool-cases, &&-eq-true, inl, inr, Option, none, some, some_inj, List, [], ◌∷◌,
}
use dbgscope.Base.Maps.{HashMap}
use dbgscope.Base.Members.{contains}
use dbgscope.Base.Words.{saturating_add, saturating_sub, u64_max}
use dbgscope.Decode.Vs.{VsChunk, vs_unit}
use dbgscope.Pool.{PoolSpan, is_coverage_gap}
use dbgscope.Snapshot.Spans.{PoolMatchLimit, stop_after, is_match, record_span}
use dbgscope.Walk.Regions.{PoolRegion, BigPageEntry, Walked, not_complete}
use dbgscope.Walk.Regions.Grows.{IsGrown, not_complete-IsGrown, record_span-IsGrown}
use dbgscope.Walk.Chunks.{VsResume, chunk_state, find_big, big_pool_of, at_page_end, block_start}

-- A span that begins at or after the base, has its block behind its header, and ends in the subsegment.
abbrev pub IsChunk : PoolRegion → ℕ → PoolSpan → Type 0
IsChunk region base span =
    (base ≤ span.header_address)
    × (span.header_address ≤ span.usable_address)
    × (span.usable_address + span.size ≤ region.address + region.size)

-- Where the next extent resumes: not before this one, and behind all that is covered. A chain that is lost
-- leaves a snapshot that does not say that it is complete.
abbrev pub IsResume : ℕ → Bool → Option VsResume → Type 0
IsResume base complete none = complete ≡ false
IsResume base complete (some resume) =
    (base ≤ resume.covered_through) × (resume.covered_through ≤ resume.next)

and_false : (b : Bool) → b && false ≡ false
and_false true = refl
and_false false = refl

pub chunk_state_lem :
    (region : PoolRegion) (header_address : ℕ) (chunk : VsChunk)
    → is_coverage_gap (chunk_state region header_address chunk) ≡ false
unfolding is_coverage_gap
chunk_state_lem region header_address chunk =
    elim (Bool-cases (contains header_address region.cached_chunks)) [
      | inl cached ↦ rw cached
      | inr uncached ↦ elim (Bool-cases (contains header_address region.reusable_chunks)) [
        | inl reusable ↦ rw (uncached, reusable)
        | inr held ↦ elim (Bool-cases chunk.allocated) [
          | inl e ↦ rw (uncached, held, e)
          | inr e ↦ rw (uncached, held, e)
        ]
      ]
    ]

-- An entry that is found begins in the chunk and ends in it.
abbrev pub IsInside : ℕ → ℕ → ℕ × BigPageEntry → Type 0
IsInside header_address end big = (header_address ≤ big.0) × (saturating_add big.0 big.1.size ≤ end)

find_big-IsInside :
    (header_address end : ℕ) (entries : HashMap ℕ BigPageEntry) {big : ℕ × BigPageEntry}
    → find_big header_address end entries ≡ some big
    → IsInside header_address end big
find_big-IsInside header_address end [] e = absurd (cc)
find_big-IsInside header_address end ((address, entry) ∷ entries) {big} e =
    of_test
      (leb header_address address && ltb address end && leb (saturating_add address entry.size) end)
      refl (find_big-IsInside header_address end entries) e
  where
    of_test :
        (t : Bool)
        → (leb header_address address
            && ltb address end
            && leb (saturating_add address entry.size) end)
          ≡ t
        → (find_big header_address end entries ≡ some big → IsInside header_address end big)
        → (if t then some (address, entry) else find_big header_address end entries) ≡ some big
        → (header_address ≤ big.0) × (saturating_add big.0 big.1.size ≤ end)
    of_test true t later f =
        let (first, ends) = &&-eq-true (leb header_address address && ltb address end) _ t in
        let (starts, _) = &&-eq-true (leb header_address address) _ first in
        subst (λ b. (header_address ≤ b.0) × (saturating_add b.0 b.1.size ≤ end)) (some_inj f)
          (ground arith, ground arith)
    of_test false t later f = later f

pub big_pool_of-IsInside :
    (region : PoolRegion) (header_address chunk_size : ℕ) {big : ℕ × BigPageEntry}
    → big_pool_of region header_address chunk_size ≡ some big
    → IsInside header_address (saturating_add header_address chunk_size) big
big_pool_of-IsInside region header_address chunk_size {big} e = of_test (ltb 0xff0 chunk_size) e
  where
    of_test :
        (t : Bool)
        → (if t
            then find_big header_address (saturating_add header_address chunk_size) region.big_pool
            else none)
          ≡ some big
        → IsInside header_address (saturating_add header_address chunk_size) big
    of_test true f =
        find_big-IsInside header_address (saturating_add header_address chunk_size) region.big_pool
          f
    of_test false f = absurd (cc)

module _ {Layout : Type 0} where
  stop_after-false :
      (limit : Option PoolMatchLimit) (self : Walked Layout)
      → self.complete ≡ false
      → (stop_after limit self).complete ≡ false
  stop_after-false none self h = h
  stop_after-false (some limit) self h =
      elim (Bool-cases (leb limit.matches self.matched_allocations)) [
        | inl e ↦ rw e
        | inr e ↦ rw e h
      ]

  record_span-false :
      (self : Walked Layout) (span : PoolSpan)
      → self.complete ≡ false
      → (record_span self span).complete ≡ false
  unfolding record_span
  record_span-false self span h = elim (Bool-cases (is_match self.match_limit span)) [
    | inl e ↦ rw e (stop_after-false self.match_limit _ h)
    | inr e ↦ rw e h
  ]

module _ {Layout : Type 0} (region : PoolRegion) (base : ℕ) (bytes : List ℕ)
    (before : List PoolSpan) where
  -- A snapshot that is honest, has grown by chunks, and is not complete where the chain is lost.
  abbrev pub IsFine : Bool → Walked Layout → Type 0
  IsFine lost snapshot =
      IsGrown (IsChunk region base) before snapshot × (lost && snapshot.complete ≡ false)

  pub if-IsFine :
      (lost t : Bool) (x y : Walked Layout)
      → IsFine lost x
      → IsFine lost y
      → IsFine lost (if t then x else y)
  if-IsFine lost true x y h k = h
  if-IsFine lost false x y h k = k

  pub not_complete-IsFine :
      (lost after : Bool) (s : Walked Layout) → IsFine lost s → IsFine after (not_complete s)
  not_complete-IsFine lost after s (grown, _) =
      (not_complete-IsGrown (IsChunk region base) before s grown, and_false after)

  pub record_span-IsFine :
      (lost : Bool) (s : Walked Layout) (span : PoolSpan)
      → IsFine lost s
      → is_coverage_gap span.state ≡ false
      → IsChunk region base span
      → IsFine lost (record_span s span)
  record_span-IsFine false s span (grown, _) fair h = (
    record_span-IsGrown (IsChunk region base) before s span grown (ap (λ g. g && s.complete) fair)
        h,
    refl,
  )
  record_span-IsFine true s span (grown, lossy) fair h = (
    record_span-IsGrown (IsChunk region base) before s span grown (ap (λ g. g && s.complete) fair)
        h,
    record_span-false s span lossy,
  )

module _ (region : PoolRegion) where
  -- A chunk that is accepted at the place where the loop stands.
  abbrev pub IsAccepted : ℕ → ℕ → VsChunk → Type 0
  IsAccepted base offset chunk =
      (0 < chunk.size)
      × (region.vs_header_size + region.pool_header.size ≤ chunk.size)
      × (base + offset + chunk.size ≤ region.address + region.size)

  pub block_start-bounds :
      (header_address : ℕ) (chunk : VsChunk)
      → region.vs_header_size + region.pool_header.size ≤ chunk.size
      → header_address + chunk.size < u64_max
      → (header_address + region.vs_header_size ≤ block_start region header_address chunk)
        × (block_start region header_address chunk + region.pool_header.size
            ≤ header_address + chunk.size)
  block_start-bounds header_address chunk holds below =
      elim (Bool-cases (
        at_page_end region (header_address + region.vs_header_size)
        && leb (saturating_add (region.vs_header_size + region.pool_header.size) vs_unit)
            chunk.size)) [
              | inl moved ↦
                  let roomy =
                    (&&-eq-true (at_page_end region (header_address + region.vs_header_size)) _
                      moved).1 in
                  rw moved (omega arith, ground (arith, roomy))
              | inr stays ↦ rw stays (omega arith, omega arith)
            ]

-- The numbers of a chunk's span, from those of its chunk.
pub span_bounds :
    (base end header_address physical_header pool_header size : ℕ)
    → end < u64_max
    → base ≤ header_address
    → header_address ≤ physical_header
    → physical_header + pool_header ≤ header_address + size
    → header_address + size ≤ end
    → (base ≤ (if pool_header == 0 then header_address else physical_header))
      × ((if pool_header == 0 then header_address else physical_header)
          ≤ physical_header + pool_header)
      × (physical_header
            + pool_header
            + saturating_sub size
                (saturating_add (saturating_sub physical_header header_address) pool_header)
          ≤ end)
span_bounds base end header_address physical_header pool_header size top low behind holds within =
    elim (Bool-cases (pool_header == 0)) [
      | inl none_there ↦ rw none_there (omega arith, omega arith, omega arith)
      | inr some_there ↦ rw some_there (omega arith, omega arith, omega arith)
    ]
