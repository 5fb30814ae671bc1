-- ===== src/Walk/Chunks/Loop.antt =====
-- The loop over a chain of chunks.
use dbgscope.Base.{
  ℕ, ◌+◌, ◌-◌, ◌≤◌, ◌<◌, ◌≡◌, refl, sym, subst, arith, Bool, true, false, not, ◌&&◌, ◌==◌, ltb, leb,
  if◌then◌else◌, Bool-cases, &&-eq-true, inl, inr, Option, none, some, List, length, Result, ok,
  err,
}
use dbgscope.Base.Words.{saturating_add, u64_max}
use dbgscope.Decode.Bytes.{read_u64}
use dbgscope.Decode.Vs.{VsChunk, VsRejection}
use dbgscope.Decode.Vs.Bounds.{decode_vs_chunk_fits}
use dbgscope.Pool.{PoolSpan}
use dbgscope.Snapshot.Spans.{match_limit_reached}
use dbgscope.Walk.Complaints.{
  limit_reached, broken_chains, chunk_limit, refused_chunk, broken_chain, short_chunk,
}
use dbgscope.Walk.Memory.{PoolMemory, CommitRun}
use dbgscope.Walk.Regions.{PoolRegion, BigPageEntry, Walked, base_span, complain, not_complete}
use dbgscope.Walk.Regions.Grows.{IsGrown}
use dbgscope.Walk.Rounds.{Round, Keeps}
use dbgscope.Walk.Chunks.{
  VsResume, ChunkWalk, Chained, big_pool_of, holds_nothing, check_chain, file_big, block_start,
  warn_short, file_chunk, cut_at, report_refused, report_breaks, report_limit, end_chunks,
  after_chunk, cross_end, place_chunk, take_chunk, read_chunk_header, chunk_round,
}
use dbgscope.Walk.Chunks.Fine.{
  IsChunk, IsResume, span_bounds, IsAccepted, block_start-bounds, IsInside, big_pool_of-IsInside,
  chunk_state_lem, IsFine, if-IsFine, not_complete-IsFine, record_span-IsFine,
}

module _ {World Layout : Type 0} (memory : PoolMemory World) (traversal_limit : ℕ)
    (region : PoolRegion) (base : ℕ) (bytes : List ℕ) (before : List PoolSpan)
    (ends : region.address + region.size < u64_max) (fits : base + length bytes < u64_max) where
  -- The snapshot is fine, and the loop stands at or behind the place that the chain names, which is at or
  -- behind what is covered.
  abbrev IsChunkWalk : World × ChunkWalk Layout → Type 0
  IsChunkWalk s =
      IsFine region base bytes before s.1.lost s.1.snapshot
      × (base ≤ s.1.covered_through)
      × (s.1.covered_through ≤ s.1.resume)
      × (s.1.resume ≤ base + s.1.offset)

  abbrev left : World × ChunkWalk Layout → ℕ
  left s = length bytes + 1 - s.1.offset

  abbrev IsChained : Chained World Layout → Type 0
  IsChained o = IsGrown (IsChunk region base) before o.1 × IsResume base o.1.complete o.2

  abbrev KeepsChain : ℕ → Round (World × ChunkWalk Layout) (Chained World Layout) → Type 0
  KeepsChain = Keeps IsChunkWalk left IsChained

  report_refused-IsFine :
      (lost : Bool) (refused : ℕ) (from : Option ℕ) (s : Walked Layout)
      → IsFine region base bytes before lost s
      → IsFine region base bytes before lost (report_refused region base bytes refused from s)
  report_refused-IsFine lost refused none s h = h
  report_refused-IsFine lost refused (some from) s h = h

  IsResume-of :
      (lost : Bool) (resume : VsResume) (s : Walked Layout)
      → IsFine region base bytes before lost s
      → (base ≤ resume.covered_through) × (resume.covered_through ≤ resume.next)
      → IsResume base s.complete (if lost then none else some resume)
  IsResume-of true resume s (grown, lossy) h = lossy
  IsResume-of false resume s (grown, lossy) h = h

  report_breaks-IsFine :
      (lost : Bool) (chain_breaks : ℕ) (s : Walked Layout)
      → IsFine region base bytes before lost s
      → IsFine region base bytes before lost (report_breaks region base bytes chain_breaks s)
  report_breaks-IsFine lost chain_breaks s h =
      if-IsFine region base bytes before lost (ltb 0 chain_breaks)
        (complain (broken_chains chain_breaks base) s) s h h

  report_limit-IsFine :
      (lost : Bool) (chunks : ℕ) (s : Walked Layout)
      → IsFine region base bytes before lost s
      → IsFine region base bytes before lost
          (report_limit region base bytes memory traversal_limit chunks s)
  report_limit-IsFine lost chunks s h =
      if-IsFine region base bytes before lost
        (not (match_limit_reached s) && leb traversal_limit chunks)
        (complain (chunk_limit base) (not_complete s)) s
        (not_complete-IsFine region base bytes before lost lost s h) h

  end_chunks-IsChained :
      (walk : ChunkWalk Layout) (w : World)
      → IsFine region base bytes before walk.lost walk.snapshot
      → (base ≤ walk.covered_through) × (walk.covered_through ≤ walk.resume)
      → IsChained (end_chunks region base bytes memory traversal_limit walk w)
  end_chunks-IsChained walk w fine order =
      let refused = report_refused region base bytes walk.refused walk.resync_from walk.snapshot in
      let broken = report_breaks region base bytes walk.chain_breaks refused in
      let told = report_refused-IsFine walk.lost walk.refused walk.resync_from walk.snapshot fine in
      let finished =
        report_limit-IsFine walk.lost walk.chunks broken
          (report_breaks-IsFine walk.lost walk.chain_breaks refused told) in
      (
        finished.0,
        IsResume-of walk.lost
            (record { next = walk.resume; covered_through = walk.covered_through })
            (report_limit region base bytes memory traversal_limit walk.chunks broken) finished
            order,
      )

  after_chunk-Keeps :
      (least : ℕ) (walk : ChunkWalk Layout) (w : World)
      → IsChunkWalk (w, walk)
      → left (w, walk) < least
      → KeepsChain least (after_chunk region base bytes memory traversal_limit walk w)
  after_chunk-Keeps least walk w h less = elim (Bool-cases (match_limit_reached walk.snapshot)) [
    | inl reached ↦ rw (Keeps, reached) (end_chunks-IsChained walk w h.0 (h.1, h.2))
    | inr goes ↦ rw (Keeps, goes) (h, less)
  ]

  file_big-IsChunkWalk :
      (chunk : VsChunk) (walk : ChunkWalk Layout) (w : World) (big : ℕ × BigPageEntry)
      → IsChunkWalk (w, walk)
      → IsAccepted region base walk.offset chunk
      → IsInside (base + walk.offset) (saturating_add (base + walk.offset) chunk.size) big
      → IsChunkWalk (w, file_big region base bytes chunk walk big)
  unfolding base_span
  file_big-IsChunkWalk chunk walk w (address, entry) (fine, low, covered, ahead) accepted inside = (
    record_span-IsFine region base bytes before walk.lost walk.snapshot _ fine
        (chunk_state_lem region (base + walk.offset) chunk)
        (omega (arith, inside.0), omega arith, omega (arith, inside.1, accepted.2)),
    omega arith,
    omega arith,
    omega arith,
  )

  file_chunk-IsChunkWalk :
      (chunk : VsChunk) (walk : ChunkWalk Layout) (w : World)
      → IsChunkWalk (w, walk)
      → IsAccepted region base walk.offset chunk
      → IsChunkWalk (w, file_chunk region base bytes chunk walk)
  unfolding base_span
  file_chunk-IsChunkWalk chunk walk w (fine, low, covered, ahead) accepted =
      let header_address = base + walk.offset in
      let bounds =
        block_start-bounds region header_address chunk accepted.1 (omega (arith, accepted.2)) in
      let warned =
        if-IsFine region base bytes before walk.lost _
          (complain (short_chunk header_address chunk.size) walk.snapshot) walk.snapshot fine
          fine in
      (
        record_span-IsFine region base bytes before walk.lost
            (warn_short region base bytes header_address chunk walk.snapshot) _ warned
            (chunk_state_lem region header_address chunk)
            (span_bounds base (region.address + region.size) header_address
              (block_start region header_address chunk) region.pool_header.size chunk.size ends
              (omega arith) (omega (arith, bounds.0)) bounds.1 accepted.2),
        omega arith,
        omega arith,
        omega arith,
      )

  check_chain-IsChunkWalk :
      (walk : ChunkWalk Layout) (chunk : VsChunk) (previous : Option ℕ) (w : World)
      → IsChunkWalk (w, walk)
      → IsChunkWalk (w, check_chain region base bytes walk chunk previous)
        × ((check_chain region base bytes walk chunk previous).offset ≡ walk.offset)
  check_chain-IsChunkWalk walk chunk none w h = (h, refl)
  check_chain-IsChunkWalk walk chunk (some expected) w (fine, low, covered, ahead) =
      elim (Bool-cases (chunk.previous_size == expected)) [
        | inl agrees ↦ rw (IsChunkWalk, agrees) ((fine, low, covered, ahead), refl)
        | inr differs ↦
            let warned =
              if-IsFine region base bytes before walk.lost (walk.chain_breaks == 0)
                (complain (broken_chain (base + walk.offset) chunk.previous_size expected)
                  walk.snapshot)
                walk.snapshot fine fine in
            rw (IsChunkWalk, differs)
              (
                (
                  not_complete-IsFine region base bytes before walk.lost walk.lost
                      (if walk.chain_breaks == 0
                        then complain
                            (broken_chain (base + walk.offset) chunk.previous_size expected)
                            walk.snapshot
                        else walk.snapshot)
                      warned,
                  low,
                  covered,
                  ahead,
                ),
                refl,
              )
      ]

  -- A chunk is filed, and the loop goes on behind it.
  file_chunk-Keeps :
      (chunk : VsChunk) (walk : ChunkWalk Layout) (w : World)
      → IsChunkWalk (w, walk)
      → IsAccepted region base walk.offset chunk
      → walk.offset ≤ length bytes
      → KeepsChain (left (w, walk)) (
          after_chunk region base bytes memory traversal_limit
            (file_chunk region base bytes chunk walk)
            w)
  file_chunk-Keeps chunk walk w h accepted inside =
      after_chunk-Keeps (left (w, walk)) (file_chunk region base bytes chunk walk) w
        (file_chunk-IsChunkWalk chunk walk w h accepted) (omega (arith, accepted.0))

  cross_end-Keeps :
      (chunk : VsChunk) (walk : ChunkWalk Layout) (answered : World × Option CommitRun)
      → IsChunkWalk (answered.0, walk)
      → IsAccepted region base walk.offset chunk
      → walk.offset ≤ length bytes
      → KeepsChain
          (left (answered.0, walk))
          (cross_end region base bytes memory traversal_limit chunk walk answered)
  cross_end-Keeps chunk walk (w, run) h accepted inside = elim (Bool-cases (holds_nothing run)) [
    | inl nothing ↦ rw (Keeps, nothing) (file_chunk-Keeps chunk walk w h accepted inside)
    | inr something ↦
        rw (Keeps, something)
          (end_chunks-IsChained (cut_at region base bytes chunk walk) w
            (not_complete-IsFine region base bytes before walk.lost walk.lost
              (complain limit_reached walk.snapshot) h.0)
            (h.1, omega (arith, h.2, h.3, accepted.2)))
  ]

  place_chunk-Keeps :
      (chunk : VsChunk) (walk : ChunkWalk Layout) (w : World) (big : Option (ℕ × BigPageEntry))
      → big_pool_of region (base + walk.offset) chunk.size ≡ big
      → IsChunkWalk (w, walk)
      → IsAccepted region base walk.offset chunk
      → walk.offset ≤ length bytes
      → KeepsChain
          (left (w, walk))
          (place_chunk region base bytes memory traversal_limit chunk walk w big)
  place_chunk-Keeps chunk walk w (some big) e h accepted inside =
      after_chunk-Keeps (left (w, walk)) (file_big region base bytes chunk walk big) w
        (file_big-IsChunkWalk chunk walk w big h accepted
          (big_pool_of-IsInside region (base + walk.offset) chunk.size e))
        (omega (arith, accepted.0))
  place_chunk-Keeps chunk walk w none e h accepted inside =
      elim (Bool-cases (ltb (length bytes) (saturating_add walk.offset chunk.size))) [
        | inl beyond ↦
            rw (Keeps, beyond)
              (cross_end-Keeps chunk walk
                (memory.committed_run w (saturating_add base (length bytes))) h accepted inside)
        | inr within ↦ rw (Keeps, within) (file_chunk-Keeps chunk walk w h accepted inside)
      ]

  take_chunk-Keeps :
      (walk : ChunkWalk Layout) (w : World) (decoded : Result VsChunk VsRejection)
      → ((chunk : VsChunk) → decoded ≡ ok chunk → IsAccepted region base walk.offset chunk)
      → IsChunkWalk (w, walk)
      → walk.offset ≤ length bytes
      → KeepsChain
          (left (w, walk))
          (take_chunk region base bytes memory traversal_limit walk w decoded)
  take_chunk-Keeps walk w (err rejection) accepts (fine, low, covered, ahead) inside =
      let told =
        if-IsFine region base bytes before walk.lost (walk.refused == 0)
          (complain (refused_chunk (base + walk.offset) rejection) walk.snapshot) walk.snapshot fine
          fine in
      (
        (
          not_complete-IsFine region base bytes before walk.lost true
              (if walk.refused == 0
                then complain (refused_chunk (base + walk.offset) rejection) walk.snapshot
                else walk.snapshot)
              told,
          low,
          covered,
          omega arith,
        ),
        omega arith,
      )
  take_chunk-Keeps walk w (ok chunk) accepts h inside =
      let (checked, same) = check_chain-IsChunkWalk walk chunk walk.previous_chunk w h in
      let next = check_chain region base bytes walk chunk walk.previous_chunk in
      subst
        (λ o. KeepsChain (length bytes + 1 - o) (
          place_chunk region base bytes memory traversal_limit chunk next w
            (big_pool_of region (base + o) chunk.size)))
        same
        (place_chunk-Keeps chunk next w (big_pool_of region (base + next.offset) chunk.size) refl
          checked (subst (λ o. IsAccepted region base o chunk) (sym same) (accepts chunk refl))
          (omega (arith, same)))

  read_chunk_header-Keeps :
      (walk : ChunkWalk Layout) (w : World) (encoded : Option ℕ)
      → IsChunkWalk (w, walk)
      → walk.offset ≤ length bytes
      → KeepsChain
          (left (w, walk))
          (read_chunk_header region base bytes memory traversal_limit walk w encoded)
  read_chunk_header-Keeps walk w none h inside = end_chunks-IsChained walk w h.0 (h.1, h.2)
  read_chunk_header-Keeps walk w (some encoded) h inside =
      take_chunk-Keeps walk w _
        (λ chunk e.
          let fit =
            decode_vs_chunk_fits encoded (base + walk.offset) region.heap_key
              (region.vs_header_size + region.pool_header.size)
              (saturating_add region.address region.size) (omega arith) e in
          (fit.0, fit.3, omega (arith, fit.4)))
        h inside

  pub chunk_round-Keeps :
      (s : World × ChunkWalk Layout)
      → IsChunkWalk s
      → KeepsChain (left s) (chunk_round region base bytes memory traversal_limit s)
  unfolding chunk_round
  chunk_round-Keeps (w, walk) h =
      elim (Bool-cases (
        leb
          (saturating_add (saturating_add walk.offset region.vs_header_size)
            region.pool_header.size)
          (length bytes)
        && ltb walk.chunks traversal_limit)) [
          | inl goes ↦
              let room =
                (&&-eq-true
                  (leb
                    (saturating_add (saturating_add walk.offset region.vs_header_size)
                      region.pool_header.size)
                    (length bytes))
                  _ goes).0 in
              rw (Keeps, goes)
                (read_chunk_header-Keeps walk w
                  (read_u64 bytes (walk.offset + region.vs_sizes_offset)) h (ground (arith, room)))
          | inr ends_here ↦ rw (Keeps, ends_here) (end_chunks-IsChained walk w h.0 (h.1, h.2))
        ]
