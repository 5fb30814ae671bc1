-- ===== src/Walk/Special/Placement.antt =====
-- Where the blocks of the special pool lie.
use dbgscope.Base.{
  ℕ, ◌+◌, ◌-◌, ◌*◌, ◌/◌, ◌%◌, ◌^◌, ◌≤◌, ◌<◌, ◌≡◌, refl, sym, arith, Bool, true, false, ◌&&◌, ◌==◌,
  ltb, leb, if◌then◌else◌, min, Bool-cases, &&-eq-true, inl, inr, Option, none, some, some_inj,
  List, length, take, drop, length-take,
}
use dbgscope.Base.Words.{checked_add}
use dbgscope.Decode.Header.{
  page_size, PoolHeaderLayout, SpecialPoolHeader, aligned_16, decode_special_pool_header,
}
use dbgscope.Pool.{PoolSpan, is_coverage_gap, allocated}
use dbgscope.Snapshot.Spans.{match_limit_reached}
use dbgscope.Snapshot.Spans.Matches.{IsHonest}
use dbgscope.Walk.Complaints.{undecodable_page, uncorroborated_size}
use dbgscope.Walk.Regions.{PoolRegion, Walked, base_span}
use dbgscope.Walk.Regions.Grows.{Grows-self, IsGrown, complained-IsGrown, record_span-IsGrown}
use dbgscope.Walk.Rounds.{Round, Keeps, iterate-returns}
use dbgscope.Walk.Special.{
  SpecialPlacement, is_filled, special_pool_placement, next_page, file_block, file_page,
  special_round, walk_special_pool,
}

-- A block that is placed lies behind the header, on sixteen bytes and within the page; one whose size is
-- measured ends less than sixteen bytes before the end of the page.
abbrev pub IsPlaced : ℕ → SpecialPoolHeader → ℕ → SpecialPlacement → Type 0
IsPlaced page header available placement =
    (page + header.header_size ≤ placement.usable)
    × (placement.usable + placement.size ≤ page + page_size)
    × (placement.approximate ≡ false
        → (available ≡ page_size)
          × (placement.size ≡ header.requested)
          × (placement.usable + aligned_16 header.requested ≡ page + page_size))

-- The placement of a block whose rounded size fits in a page behind its header, in a page that is read as
-- far as it is available, is behind the header and within the page. A size that is not approximate is the
-- requested one, the whole page was read, and the block is pushed against the end of the page, rounded to
-- sixteen bytes.
pub special_pool_placement-IsPlaced :
    (page : ℕ) (header : SpecialPoolHeader) (page_bytes : List ℕ)
    → aligned_16 header.requested + header.header_size ≤ page_size
    → length page_bytes ≤ page_size
    → IsPlaced page header (length page_bytes) (special_pool_placement page header page_bytes)
unfolding special_pool_placement
special_pool_placement-IsPlaced page header page_bytes fits short =
    elim (Bool-cases (
      length page_bytes == page_size
      && is_filled header page_bytes (page_size - aligned_16 header.requested))) [
        | inl filled ↦
            let whole = (&&-eq-true (length page_bytes == page_size) _ filled).0 in
            rw (IsPlaced, filled) (omega arith, omega arith, λ _. (ground arith, refl, omega arith))
        | inr bare ↦ rw (IsPlaced, bare) (omega arith, omega arith, λ e. absurd (cc))
      ]

decode-fits :
    (bytes : List ℕ) (offset : ℕ) (layout : PoolHeaderLayout) {h : SpecialPoolHeader}
    → decode_special_pool_header bytes offset layout ≡ some h
    → aligned_16 h.requested + h.header_size ≤ page_size
unfolding decode_special_pool_header
decode-fits bytes offset layout {h} e = ground arith

-- A span that is the block of one page of the special pool.
abbrev pub IsBlock : ℕ → PoolSpan → Type 0
IsBlock base span =
    (base ≤ span.header_address)
    × (span.header_address % page_size ≡ 0)
    × (span.header_address ≤ span.usable_address)
    × (span.usable_address + span.size ≤ span.header_address + page_size)
    × (span.state ≡ allocated)

checked_add-eq : (a b : ℕ) {c : ℕ} → checked_add a b ≡ some c → c ≡ a + b
checked_add-eq a b {c} e = of_test (ltb (a + b) (2 ^ 64)) e
  where
    of_test : (t : Bool) → (if t then some (a + b) else none) ≡ some c → c ≡ a + b
    of_test true f = sym (some_inj f)
    of_test false f = absurd (cc)

module _ {Layout : Type 0} (region : PoolRegion) (base : ℕ) (bytes : List ℕ) where
  module _ (before : List PoolSpan) where
    abbrev IsPageWalk : ℕ × Walked Layout → Type 0
    IsPageWalk s = IsGrown (IsBlock base) before s.1 × (base ≤ s.0) × (s.0 % page_size ≡ 0)

    abbrev left : ℕ × Walked Layout → ℕ
    left s = length bytes - (s.0 - base)

    abbrev KeepsPages : ℕ → Round (ℕ × Walked Layout) (Walked Layout) → Type 0
    KeepsPages = Keeps IsPageWalk left (IsGrown (IsBlock base) before)

    next_page-Keeps :
        (page : ℕ) (snapshot : Walked Layout) (next : Option ℕ)
        → checked_add page page_size ≡ next
        → IsPageWalk (page, snapshot)
        → page - base < length bytes
        → KeepsPages (left (page, snapshot)) (next_page region base bytes snapshot next)
    next_page-Keeps page snapshot none e (grown, low, aligned) more = grown
    next_page-Keeps page snapshot (some next) e (grown, low, aligned) more =
        let after = checked_add-eq page page_size e in
        ((grown, omega arith, omega arith), omega arith)

    file_block-IsGrown :
        (page : ℕ) (header : SpecialPoolHeader) (placement : SpecialPlacement) (available : ℕ)
        (snapshot : Walked Layout)
        → IsPageWalk (page, snapshot)
        → IsPlaced page header available placement
        → IsGrown
            (IsBlock base)
            before
            (file_block region base bytes page header placement snapshot)
    unfolding base_span is_coverage_gap
    file_block-IsGrown page header placement available snapshot (grown, low, aligned) placed =
        elim (Bool-cases placement.approximate) [
          | inl bound ↦ rw bound (
              record_span-IsGrown (IsBlock base) before _ _
                (complained-IsGrown (IsBlock base) before (uncorroborated_size page header.tag)
                  snapshot grown)
                refl (low, aligned, omega (arith, placed.0), placed.1, refl))
          | inr exact ↦ rw exact (
              record_span-IsGrown (IsBlock base) before snapshot _ grown refl
                (low, aligned, omega (arith, placed.0), placed.1, refl))
        ]

    file_page-Keeps :
        (page : ℕ) (page_bytes : List ℕ) (snapshot : Walked Layout)
        (header : Option SpecialPoolHeader)
        → decode_special_pool_header bytes (page - base) region.pool_header ≡ header
        → length page_bytes ≤ page_size
        → IsPageWalk (page, snapshot)
        → page - base < length bytes
        → KeepsPages
            (left (page, snapshot))
            (file_page region base bytes page page_bytes snapshot header)
    file_page-Keeps page page_bytes snapshot none e short (grown, low, aligned) more =
        next_page-Keeps page _ (checked_add page page_size) refl
          (
            complained-IsGrown (IsBlock base) before (undecodable_page page) snapshot grown,
            low,
            aligned,
          )
          more
    file_page-Keeps page page_bytes snapshot (some header) e short (grown, low, aligned) more =
        elim (Bool-cases (header.tag == 0)) [
          | inl untagged ↦
              rw (Keeps, untagged)
                (next_page-Keeps page snapshot (checked_add page page_size) refl
                  (grown, low, aligned) more)
          | inr tagged ↦
              let placement = special_pool_placement page header page_bytes in
              let placed =
                special_pool_placement-IsPlaced page header page_bytes
                  (decode-fits bytes (page - base) region.pool_header e) short in
              let filed =
                file_block-IsGrown page header placement (length page_bytes) snapshot
                  (grown, low, aligned) placed in
              rw (Keeps, tagged)
                (elim (Bool-cases (
                  match_limit_reached
                    (file_block region base bytes page header placement snapshot))) [
                      | inl reached ↦ rw (reached) filed
                      | inr goes ↦ rw (goes) (
                          next_page-Keeps page _ (checked_add page page_size) refl
                            (filed, low, aligned) more)
                    ])
        ]

    special_round-Keeps :
        (s : ℕ × Walked Layout)
        → IsPageWalk s
        → KeepsPages (left s) (special_round region base bytes s)
    unfolding special_round
    special_round-Keeps (page, snapshot) h = elim (Bool-cases (leb (length bytes) (page - base))) [
      | inl ended ↦ rw (Keeps, ended) h.0
      | inr more ↦
          let size =
            length-take (min (length bytes - (page - base)) page_size) (drop (page - base) bytes) in
          rw (Keeps, more)
            (file_page-Keeps page
              (take (min (length bytes - (page - base)) page_size) (drop (page - base) bytes))
              snapshot _ refl (omega arith) h (ground arith))
    ]

  -- Over the bytes of an extent, the walk over the pages of the special pool ends, also past pages that do
  -- not decode; the snapshot stays honest, and the spans that are added are allocated blocks, each behind
  -- the start of a page that is not before the extent, and within that page.
  pub walk_special_pool-IsGrown :
      (snapshot : Walked Layout)
      → IsHonest snapshot
      → (after : Walked Layout) × (walk_special_pool region base bytes snapshot ≡ some after)
        × IsGrown (IsBlock base) snapshot.spans after
  unfolding walk_special_pool
  walk_special_pool-IsGrown snapshot honest =
      iterate-returns (special_round region base bytes)
        (λ s. IsGrown (IsBlock base) snapshot.spans s.1 × (base ≤ s.0) × (s.0 % page_size ≡ 0))
        (λ s. length bytes - (s.0 - base)) (IsGrown (IsBlock base) snapshot.spans)
        (special_round-Keeps snapshot.spans) (length bytes + 1)
        ((base + (page_size - 1)) / page_size * page_size, snapshot)
        ((honest, Grows-self (IsBlock base) snapshot.spans), omega arith, omega arith) (omega arith)
