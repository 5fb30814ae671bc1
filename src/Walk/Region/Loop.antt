-- ===== src/Walk/Region/Loop.antt =====
-- The loop over the extents of a region.
use dbgscope.Base.{
  ℕ, ◌+◌, ◌-◌, ◌≤◌, ◌<◌, ◌≡◌, refl, sym, subst, arith, Bool, true, false, ◌&&◌, ◌==◌, ltb, leb,
  if◌then◌else◌, min, Bool-cases, inl, inr, Option, some, List, length, Result, ok, err,
}
use dbgscope.Base.Words.{IsU64, saturating_add, u64_max}
use dbgscope.Pool.{PoolBackend, PoolSpan, lfh, vs, segment, large}
use dbgscope.Snapshot.Spans.{match_limit_reached}
use dbgscope.Walk.Complaints.{Complaint, partly_committed, dead_region, unreadable_region}
use dbgscope.Walk.Chunks.Fine.{IsChunk}
use dbgscope.Walk.Chunks.Chain.{walk_vs-IsWalked}
use dbgscope.Walk.Extent.{Read, read_extent}
use dbgscope.Walk.Extent.Sizes.{IsExact, read_extent-IsExact}
use dbgscope.Walk.Memory.{SnapshotError, halts_walk, PoolMemory, check_budget}
use dbgscope.Walk.Regions.{PoolRegion, Walked, complain, unreadable_space}
use dbgscope.Walk.Regions.Grows.{IsGrown}
use dbgscope.Walk.Nodes.{max}
use dbgscope.Walk.Rounds.{Keeps}
use dbgscope.Walk.Slots.Lfh.{IsSlot, walk_lfh-IsGrown}
use dbgscope.Walk.Slots.Cells.{HasStates, IsCell, walk_page_ranges-IsGrown}
use dbgscope.Walk.Special.{walk_special_pool}
use dbgscope.Walk.Special.Placement.{IsBlock, walk_special_pool-IsGrown}
use dbgscope.Walk.Region.{
  RegionWalk, Ended, RegionRound, proceed, page_end, requested_end, finish, file_rest, go_on,
  count_stall, after_stall, step_page, stall, after_extent, after_chain, next_of, cover, dispatch,
  count_recovered, decode_extent, use_extent, enter, filed_gap, answered_query, polled_region,
  region_round,
}
use dbgscope.Walk.Region.Kept.{IsKept, IsKept-from, unreadable_space-IsKept}

-- A well-formed region: it ends before the last address, the slots of a subsegment have a size, and the
-- cells of a page range have states, none of which is a gap in the coverage. That a region ends there is
-- not something that discovery checks, where the allocator's metadata is corrupt.
abbrev pub IsRegion : PoolRegion → Type 0
IsRegion region =
    (region.address + region.size < u64_max)
    × (region.backend ≡ lfh → 0 < region.unit_size)
    × (region.backend ≡ segment → HasStates region)

-- A read of the memory that is answered has as many bytes as were asked for.
abbrev pub ReadsExactly : {World : Type 0} → PoolMemory World → Type 0
ReadsExactly {World} memory =
    (address size : ℕ) (w : World) → IsExact size (memory.read_exact address size w).1

module _ {World Layout : Type 0} (memory : PoolMemory World) (traversal_limit : ℕ)
    (region : PoolRegion) (before : List PoolSpan) (is : IsRegion region)
    (exact : ReadsExactly memory) where
  abbrev pub IsRegionWalk : World × RegionWalk Layout → Type 0
  IsRegionWalk s = IsKept before s.1.snapshot × (region.address ≤ s.1.cursor)

  abbrev left : World × RegionWalk Layout → ℕ
  left s = requested_end region - s.1.cursor

  abbrev pub IsEnded : Option (Ended World Layout) → Type 0
  IsEnded o = (e : Ended World Layout) × (o ≡ some e) × IsKept before e.1

  abbrev KeepsRegion : ℕ → RegionRound World Layout → Type 0
  KeepsRegion = Keeps IsRegionWalk left IsEnded

  -- A loop inside the round has an answer, and the round goes on with it.
  proceed-Keeps :
      {A : Type 0} (Q : A → Type 0) (n : ℕ) (next : A → RegionRound World Layout)
      (walked : Option A)
      → (a : A) × (walked ≡ some a) × Q a
      → ((a : A) → Q a → KeepsRegion n (next a))
      → KeepsRegion n (proceed next walked)
  proceed-Keeps Q n next walked (a, e, q) keeps =
      subst (λ x. KeepsRegion n (proceed next x)) (sym e) (keeps a q)

  -- Address space is filed before the round goes on.
  gap-Keeps :
      (n from size : ℕ) (w : World) (snapshot : Walked Layout)
      (next : World × Walked Layout × Bool → RegionRound World Layout)
      → IsU64 from
      → IsKept before snapshot
      → ((o : World × Walked Layout × Bool) → IsKept before o.1 → KeepsRegion n (next o))
      → KeepsRegion n (proceed next (unreadable_space memory region from size w snapshot))
  gap-Keeps n from size w snapshot next word kept keeps =
      proceed-Keeps (λ o. IsKept before o.1) n next
        (unreadable_space memory region from size w snapshot)
        (unreadable_space-IsKept memory region before from size w snapshot word kept) keeps

  finish-Keeps :
      (n : ℕ) (o : World × Walked Layout × Bool)
      → IsKept before o.1
      → KeepsRegion n (finish memory traversal_limit region o)
  finish-Keeps n (w, snapshot, missed) kept = (_, refl, kept)

  file_rest-Keeps :
      (n from : ℕ) (w : World) (snapshot : Walked Layout)
      → IsU64 from
      → IsKept before snapshot
      → KeepsRegion n (file_rest memory traversal_limit region from w snapshot)
  file_rest-Keeps n from w snapshot word kept =
      gap-Keeps n from (requested_end region - from) w snapshot
        (finish memory traversal_limit region) word kept (finish-Keeps n)

  after_stall-Keeps :
      (n : ℕ) (walk : RegionWalk Layout) (w : World)
      → IsRegionWalk (w, walk)
      → IsU64 walk.cursor
      → left (w, walk) < n
      → KeepsRegion n (after_stall memory traversal_limit region walk w)
  after_stall-Keeps n walk w (kept, low) word less =
      elim (Bool-cases (leb 8 walk.consecutive_stalls)) [
        | inl dead ↦
            rw (Keeps, dead)
              (file_rest-Keeps n walk.cursor w
                (complain (dead_region region.address region.size) walk.snapshot) word kept)
        | inr alive ↦ rw (Keeps, alive) ((kept, low), less)
      ]

  stall-Keeps :
      (n reported_base reported_size valid_base : ℕ) (walk : RegionWalk Layout) (w : World)
      → IsRegionWalk (w, walk)
      → region.address ≤ valid_base
      → requested_end region - valid_base ≤ n
      → KeepsRegion n
          (stall memory traversal_limit region reported_base reported_size valid_base walk w)
  stall-Keeps n reported_base reported_size valid_base walk w (kept, low) above room =
      let below = is.0 in
      elim (Bool-cases (leb (requested_end region) valid_base)) [
        | inl over ↦ rw (Keeps, over) (_, refl, kept)
        | inr inside ↦ elim (Bool-cases (reported_base == 0 && reported_size == 0)) [
          | inl nothing ↦
              rw (Keeps, inside, nothing)
                (file_rest-Keeps n (min (max valid_base walk.vs_covered) (requested_end region)) w
                  walk.snapshot (omega arith) kept)
          | inr behind ↦
              let skip = min (page_end valid_base) (requested_end region) - valid_base in
              let within : valid_base < requested_end region = ground arith in
              rw (Keeps, inside, behind)
                (gap-Keeps n (min (max valid_base walk.vs_covered) (valid_base + skip)) _ w _
                  (step_page memory traversal_limit region valid_base skip walk) (omega arith) kept
                  (λ o held.
                    after_stall-Keeps n (count_stall skip (saturating_add valid_base skip) walk o.1)
                      o.0 (held, omega arith) (omega arith) (omega arith)))
        ]
      ]

  after_extent-Keeps :
      (n valid_end : ℕ) (walk : RegionWalk Layout) (w : World) (snapshot : Walked Layout)
      → IsKept before snapshot
      → region.address ≤ valid_end
      → requested_end region - valid_end < n
      → KeepsRegion n (after_extent memory traversal_limit region valid_end walk w snapshot)
  after_extent-Keeps n valid_end walk w snapshot kept above less =
      elim (Bool-cases (match_limit_reached snapshot)) [
        | inl reached ↦ rw (Keeps, reached) (_, refl, kept)
        | inr goes ↦ rw (Keeps, goes) ((kept, above), less)
      ]

  dispatch-Keeps :
      (n : ℕ) (backend : PoolBackend) (valid_base valid_end : ℕ) (bytes : List ℕ)
      (walk : RegionWalk Layout) (w : World)
      → region.backend ≡ backend
      → IsKept before walk.snapshot
      → region.address ≤ valid_base
      → valid_base + length bytes < u64_max
      → region.address ≤ valid_end
      → requested_end region - valid_end < n
      → KeepsRegion n
          (dispatch memory traversal_limit region backend valid_base valid_end bytes walk w)
  dispatch-Keeps n lfh valid_base valid_end bytes walk w e kept inside fits above less =
      proceed-Keeps (IsGrown (IsSlot region valid_base bytes) walk.snapshot.spans) n _ _
        (walk_lfh-IsGrown region valid_base bytes walk.snapshot inside (is.1 e) fits kept.0)
        (λ after grown.
          after_extent-Keeps n valid_end walk w after
            (IsKept-from _ before walk.snapshot.spans after kept.1 grown) above less)
  dispatch-Keeps n vs valid_base valid_end bytes walk w e kept inside fits above less =
      proceed-Keeps (λ o. IsGrown (IsChunk region valid_base) walk.snapshot.spans o.1) n
        (after_chain memory traversal_limit region valid_end walk) _
        (let (o, answered, walked) =
            walk_vs-IsWalked memory traversal_limit region valid_base bytes walk.vs_chunk
              walk.snapshot w is.0 fits kept.0 in
          (o, answered, walked.0))
        (λ o grown.
          after_extent-Keeps n valid_end
            (record walk { vs_chunk = next_of o.2; vs_covered = cover walk.vs_covered o.2 }) o.0 o.1
            (IsKept-from _ before walk.snapshot.spans o.1 kept.1 grown) above less)
  dispatch-Keeps n segment valid_base valid_end bytes walk w e kept inside fits above less =
      proceed-Keeps (IsGrown (IsCell region valid_base bytes) walk.snapshot.spans) n _ _
        (walk_page_ranges-IsGrown region valid_base bytes walk.snapshot inside (is.2 e) kept.0)
        (λ after grown.
          after_extent-Keeps n valid_end walk w after
            (IsKept-from _ before walk.snapshot.spans after kept.1 grown) above less)
  dispatch-Keeps n large valid_base valid_end bytes walk w e kept inside fits above less =
      (_, refl, kept)

  decode_extent-Keeps :
      (n : ℕ) (special : Bool) (valid_base valid_end : ℕ) (bytes : List ℕ)
      (walk : RegionWalk Layout) (w : World)
      → IsKept before walk.snapshot
      → region.address ≤ valid_base
      → valid_base + length bytes < u64_max
      → region.address ≤ valid_end
      → requested_end region - valid_end < n
      → KeepsRegion n
          (decode_extent memory traversal_limit region special valid_base valid_end bytes walk w)
  decode_extent-Keeps n true valid_base valid_end bytes walk w kept inside fits above less =
      proceed-Keeps (IsGrown (IsBlock valid_base) walk.snapshot.spans) n
        (after_extent memory traversal_limit region valid_end walk w)
        (walk_special_pool region valid_base bytes walk.snapshot)
        (walk_special_pool-IsGrown region valid_base bytes walk.snapshot kept.0)
        (λ after grown.
          after_extent-Keeps n valid_end walk w after
            (IsKept-from (IsBlock valid_base) before walk.snapshot.spans after kept.1 grown) above
            less)
  decode_extent-Keeps n false valid_base valid_end bytes walk w kept inside fits above less =
      dispatch-Keeps n region.backend valid_base valid_end bytes walk w refl kept inside fits above
        less

  recovered-IsKept :
      (size : ℕ) (walk : RegionWalk Layout)
      → IsKept before walk.snapshot
      → IsKept before (count_recovered size walk).snapshot
  recovered-IsKept size walk kept = elim (Bool-cases walk.stalled_here) [
    | inl stalled ↦ rw (IsKept, stalled) kept
    | inr smooth ↦ rw (IsKept, smooth) kept
  ]

  use_extent-Keeps :
      (n valid_base valid_end : ℕ) (walk : RegionWalk Layout) (read : Read World)
      → IsKept before walk.snapshot
      → region.address ≤ valid_base
      → valid_base < valid_end
      → valid_end ≤ requested_end region
      → IsExact (valid_end - valid_base) read.1
      → requested_end region - valid_base ≤ n
      → KeepsRegion n (use_extent memory traversal_limit region valid_base valid_end walk read)
  use_extent-Keeps n valid_base valid_end walk (w, ok bytes) kept inside some_left low size room =
      let below = is.0 in
      decode_extent-Keeps n region.heap.special valid_base valid_end bytes
        (count_recovered (length bytes) walk) w (recovered-IsKept (length bytes) walk kept) inside
        (omega arith) (omega arith) (omega arith)
  use_extent-Keeps n valid_base valid_end walk (w, err e) kept inside some_left low size room =
      let below = is.0 in
      elim (Bool-cases (halts_walk e)) [
        | inl halts ↦ rw (Keeps, halts) (_, refl, kept)
        | inr reads ↦
            rw (Keeps, reads)
              (gap-Keeps n valid_base (valid_end - valid_base) w
                (complain (unreadable_region valid_base e) walk.snapshot)
                (go_on memory traversal_limit region valid_end walk) (omega arith) kept
                (λ o held. ((held, omega arith), omega arith)))
      ]

  enter-Keeps :
      (n reported_base reported_size valid_base : ℕ) (walk : RegionWalk Layout) (w : World)
      → IsRegionWalk (w, walk)
      → region.address ≤ valid_base
      → requested_end region - valid_base ≤ n
      → KeepsRegion n
          (enter memory traversal_limit region reported_base reported_size valid_base walk w)
  enter-Keeps n reported_base reported_size valid_base walk w (kept, low) above room =
      let valid_end = min (saturating_add reported_base reported_size) (requested_end region) in
      elim (Bool-cases (leb valid_end valid_base)) [
        | inl stuck ↦
            rw (Keeps, stuck)
              (stall-Keeps n reported_base reported_size valid_base walk w (kept, low) above room)
        | inr forward ↦
            let some_left : valid_base < valid_end = ground arith in
            rw (Keeps, forward)
              (proceed-Keeps (λ o. IsExact (valid_end - valid_base) o.1) n
                (use_extent memory traversal_limit region valid_base valid_end
                  (record walk { consecutive_stalls = 0 }))
                (read_extent memory valid_base (valid_end - valid_base) w)
                (read_extent-IsExact memory valid_base (valid_end - valid_base) w
                  (λ v. exact valid_base (valid_end - valid_base) v))
                (λ o size.
                  use_extent-Keeps n valid_base valid_end (record walk { consecutive_stalls = 0 }) o
                    kept above some_left (omega arith) size room))
      ]

  told-IsKept :
      (complaint : Complaint) (missed : Bool) (snapshot : Walked Layout)
      → IsKept before snapshot
      → IsKept before (if missed then complain complaint snapshot else snapshot)
  told-IsKept complaint true snapshot kept = kept
  told-IsKept complaint false snapshot kept = kept

  answered_query-Keeps :
      (walk : RegionWalk Layout) (valid : World × Result (ℕ × ℕ) SnapshotError)
      → IsRegionWalk (valid.0, walk)
      → walk.cursor < requested_end region
      → KeepsRegion (left (valid.0, walk)) (answered_query memory traversal_limit region walk valid)
  answered_query-Keeps walk (w, err e) (kept, low) more =
      file_rest-Keeps (left (w, walk)) walk.cursor w (complain _ walk.snapshot) (omega arith) kept
  answered_query-Keeps walk (w, ok (reported_base, reported_size)) (kept, low) more =
      let valid_base = min (max reported_base walk.cursor) (requested_end region) in
      let gap_start = min (max walk.cursor walk.vs_covered) valid_base in
      let ahead : walk.cursor ≤ valid_base = ground arith in
      elim (Bool-cases (ltb gap_start valid_base)) [
        | inl gap ↦
            rw (Keeps, gap)
              (gap-Keeps (left (w, walk)) gap_start (valid_base - gap_start) w walk.snapshot
                (filed_gap memory traversal_limit region reported_base reported_size valid_base
                  gap_start walk)
                (omega arith) kept
                (λ o held.
                  enter-Keeps (left (w, walk)) reported_base reported_size valid_base _ o.0
                    (
                      told-IsKept
                          (partly_committed region.address region.size gap_start
                            (valid_base - gap_start))
                          o.2 o.1 held,
                      low,
                    )
                    (omega arith) (omega arith)))
        | inr none_between ↦
            rw (Keeps, none_between)
              (enter-Keeps (left (w, walk)) reported_base reported_size valid_base walk w
                (kept, low) (omega arith) (omega arith))
      ]

  polled_region-Keeps :
      (walk : RegionWalk Layout) (polled : World × Result (Unit {0}) SnapshotError)
      → IsRegionWalk (polled.0, walk)
      → walk.cursor < requested_end region
      → KeepsRegion
          (left (polled.0, walk))
          (polled_region memory traversal_limit region walk polled)
  polled_region-Keeps walk (w, err e) h more = (_, refl, h.0)
  polled_region-Keeps walk (w, ok _) h more =
      answered_query-Keeps walk (memory.valid_region walk.cursor _ w) h more

  pub region_round-Keeps :
      (s : World × RegionWalk Layout)
      → IsRegionWalk s
      → KeepsRegion (left s) (region_round memory traversal_limit region s)
  unfolding region_round
  region_round-Keeps (w, walk) h = elim (Bool-cases (ltb walk.cursor (requested_end region))) [
    | inl more ↦
        rw (Keeps, more) (polled_region-Keeps walk (check_budget memory w) h (ground arith))
    | inr over ↦ rw (Keeps, over) (_, refl, h.0)
  ]
