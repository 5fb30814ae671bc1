-- ===== src/Walk/Slots/Cells.antt =====
-- The spans over the cells of a page range.
use dbgscope.Base.{
  ℕ, zero, suc, ◌+◌, ◌-◌, ◌*◌, ◌≤◌, ◌<◌, ◌≡◌, ◌⊎◌, refl, ap, sym, subst, arith, false, ◌&&◌, leb,
  Bool-cases, inl, inr, Option, Option-cases, none, some, List, [], ◌∷◌, length, get_elem?,
  get_elem?-some, All,
}
use mathlib.Core.Option
use dbgscope.Base.Words.{checked_mul}
use dbgscope.Decode.Header.{decode_pool_header}
use dbgscope.Pool.{PoolState, PoolSpan, is_coverage_gap}
use dbgscope.Snapshot.Spans.{match_limit_reached}
use dbgscope.Snapshot.Spans.Matches.{IsHonest}
use dbgscope.Walk.Regions.{PoolRegion, Walked, base_span, first_state}
use dbgscope.Walk.Regions.Grows.{Grows-self, IsGrown, record_span-IsGrown}
use dbgscope.Walk.Rounds.{Round, Keeps, iterate-returns}
use dbgscope.Walk.Slots.{
  tag_of, div_ceil, slice_offset, slice_end, cell_state, cell_tag, cell_unit, next_slot, file_cell,
  place_cell, cell_round, walk_page_ranges,
}
use dbgscope.Walk.Slots.Lfh.{div_ceil-reaches, suc-mul, checked_mul-eq}

-- The states of a region's cells: one at least, and each is that of a chunk or of uncommitted space.
abbrev pub HasStates : PoolRegion → Type 0
HasStates region =
    (0 < length region.states) × All (λ state. is_coverage_gap state ≡ false) region.states

pub state_at :
    (states : List PoolState) (slot : ℕ) (other : PoolState)
    → All (λ state. is_coverage_gap state ≡ false) states
    → is_coverage_gap other ≡ false
    → is_coverage_gap (Option.get_or (get_elem? states slot) other) ≡ false
state_at [] slot other h e = e
state_at (s ∷ states) zero other h e = h.0
state_at (s ∷ states) (suc slot) other h e = state_at states slot other h.1 e

pub first_lem :
    (other : PoolState) (states : List PoolState)
    → 0 < length states
    → All (λ state. is_coverage_gap state ≡ false) states
    → is_coverage_gap (first_state other states) ≡ false
first_lem other [] h k = absurd (omega arith)
first_lem other (s ∷ states) h k = k.0

cell_state_lem :
    (region : PoolRegion) (slot : ℕ)
    → HasStates region
    → is_coverage_gap (cell_state region slot) ≡ false
cell_state_lem region slot (some_state, states) =
    state_at region.states slot _ states
      (first_lem PoolState.unreadable region.states some_state states)

-- The state of a cell: its own, or the first where the region has none for it.
abbrev pub HasState : List PoolState → ℕ → PoolState → Type 0
HasState states slot state =
    (get_elem? states slot ≡ some state)
    ⊎ (length states ≤ slot) × (get_elem? states 0 ≡ some state)

-- The tag of a cell: the one known for the region, or the one of the pool header at the offset, which is
-- 0 where none is read.
abbrev pub HasTag : PoolRegion → List ℕ → ℕ → ℕ → Type 0
HasTag region bytes offset tag =
    (region.known_tag ≡ some tag)
    ⊎ (region.known_tag ≡ none)
      × (tag ≡ tag_of (decode_pool_header bytes offset region.pool_header))

get_elem?-length :
    (states : List PoolState) (slot : ℕ) → get_elem? states slot ≡ none → length states ≤ slot
get_elem?-length [] slot h = omega arith
get_elem?-length (s ∷ states) zero h = absurd (cc)
get_elem?-length (s ∷ states) (suc slot) h = omega (arith, get_elem?-length states slot h)

cell_state-HasState :
    (region : PoolRegion) (slot : ℕ)
    → 0 < length region.states
    → HasState region.states slot (cell_state region slot)
cell_state-HasState region slot h = elim (Option-cases (get_elem? region.states slot)) [
  | inl beyond ↦
      let (first, e) = get_elem?-some region.states 0 h in
      inr (get_elem?-length region.states slot beyond, rw (beyond) (first_state-eq region.states e))
  | inr found ↦ let (state, e) = found in inl (rw (e) refl)
]
  where
    first_state-eq :
        (states : List PoolState) {first : PoolState}
        → get_elem? states 0 ≡ some first
        → get_elem? states 0 ≡ some (first_state PoolState.unreadable states)
    first_state-eq [] e = absurd (cc)
    first_state-eq (s ∷ states) e = refl

cell_tag-HasTag :
    (region : PoolRegion) (bytes : List ℕ) (offset : ℕ)
    → HasTag region bytes offset (cell_tag region bytes offset)
cell_tag-HasTag region bytes offset = elim (Option-cases region.known_tag) [
  | inl unknown ↦ inr (unknown, rw (unknown) refl)
  | inr found ↦ let (tag, e) = found in inl (rw (e) refl)
]

cell_unit-pos : (region : PoolRegion) → 0 < cell_unit region
cell_unit-pos region = ground arith

-- A span that is one cell of the page range, in its state and with its tag, within the bytes.
abbrev pub IsCell : PoolRegion → ℕ → List ℕ → PoolSpan → Type 0
IsCell region base bytes span =
    (slot : ℕ) × (span.header_address ≡ region.address + slot * cell_unit region)
    × HasState region.states slot span.state
    × HasTag region bytes (span.header_address - base) span.raw_tag
    × (base ≤ span.header_address)
    × (span.header_address ≤ span.usable_address)
    × (span.usable_address + span.size ≤ span.header_address + cell_unit region)
    × (span.usable_address + span.size ≤ base + length bytes)

module _ {Layout : Type 0} (region : PoolRegion) (base : ℕ) (bytes : List ℕ) where
  module _ (before : List PoolSpan) (inside : region.address ≤ base)
      (states : HasStates region) where
    abbrev IsCellWalk : ℕ × Walked Layout → Type 0
    IsCellWalk s =
        IsGrown (IsCell region base bytes) before s.1
        × (slice_offset region base ≤ s.0 * cell_unit region)

    abbrev left : ℕ × Walked Layout → ℕ
    left s = slice_end region base bytes - s.0 * cell_unit region

    abbrev KeepsCells : ℕ → Round (ℕ × Walked Layout) (Walked Layout) → Type 0
    KeepsCells = Keeps IsCellWalk left (IsGrown (IsCell region base bytes) before)

    next_cell-Keeps :
        (slot : ℕ) (snapshot : Walked Layout)
        → IsGrown (IsCell region base bytes) before snapshot
        → slice_offset region base ≤ slot * cell_unit region
        → slot * cell_unit region < slice_end region base bytes
        → KeepsCells
            (slice_end region base bytes - slot * cell_unit region)
            (next_slot region base bytes slot snapshot)
    next_cell-Keeps slot snapshot grown low fits =
        elim (Bool-cases (match_limit_reached snapshot)) [
          | inl reached ↦ rw (Keeps, reached) grown
          | inr goes ↦
              let pos = cell_unit-pos region in
              let next = suc-mul slot (cell_unit region) in
              rw (Keeps, goes) ((grown, omega arith), omega arith)
        ]

    file_cell-IsGrown :
        (slot : ℕ) (snapshot : Walked Layout)
        → IsGrown (IsCell region base bytes) before snapshot
        → slice_offset region base ≤ slot * cell_unit region
        → slot * cell_unit region < slice_end region base bytes
        → IsGrown
            (IsCell region base bytes)
            before
            (file_cell region base bytes (cell_unit region) slot (slot * cell_unit region) snapshot)
    unfolding base_span
    file_cell-IsGrown slot snapshot grown low fits =
        record_span-IsGrown (IsCell region base bytes) before snapshot _ grown
          (ap (λ g. g && snapshot.complete) (cell_state_lem region slot states))
          (
            slot,
            refl,
            cell_state-HasState region slot states.0,
            subst
                (λ offset.
                  HasTag region bytes offset
                    (cell_tag region bytes (slot * cell_unit region - slice_offset region base)))
                (omega arith)
                (cell_tag-HasTag region bytes (slot * cell_unit region - slice_offset region base)),
            omega arith,
            omega arith,
            omega arith,
            omega arith,
          )

    place_cell-Keeps :
        (slot : ℕ) (snapshot : Walked Layout) (offset : Option ℕ)
        → checked_mul slot (cell_unit region) ≡ offset
        → IsCellWalk (slot, snapshot)
        → KeepsCells
            (left (slot, snapshot))
            (place_cell region base bytes (cell_unit region) slot snapshot offset)
    place_cell-Keeps slot snapshot none e h = h.0
    place_cell-Keeps slot snapshot (some offset) e (grown, low) =
        subst
          (λ o.
            KeepsCells (left (slot, snapshot))
              (place_cell region base bytes (cell_unit region) slot snapshot (some o)))
          (sym (checked_mul-eq slot (cell_unit region) e))
          (elim (Bool-cases (leb (slice_end region base bytes) (slot * cell_unit region))) [
            | inl beyond ↦ rw (Keeps, beyond) grown
            | inr within ↦
                rw (Keeps, within)
                  (next_cell-Keeps slot _ (file_cell-IsGrown slot snapshot grown low (below within))
                    low (below within))
          ])
      where
        below :
            leb (slice_end region base bytes) (slot * cell_unit region) ≡ false
            → slot * cell_unit region < slice_end region base bytes
        below e = ground (arith, e)

    cell_round-Keeps :
        (s : ℕ × Walked Layout)
        → IsCellWalk s
        → KeepsCells (left s) (cell_round region base bytes (cell_unit region) s)
    unfolding cell_round
    cell_round-Keeps (slot, snapshot) h =
        place_cell-Keeps slot snapshot (checked_mul slot (cell_unit region)) refl h

  -- Over the bytes of an extent that begins in the region, where the region has states and none of them is
  -- a gap in the coverage, the walk over the cells ends; the snapshot stays honest, and the spans that are
  -- added are cells of the region, within their cell and the bytes, each in its state, or the first where
  -- the region has none for it, and with the tag known for the region, or the one of its pool header.
  pub walk_page_ranges-IsGrown :
      (snapshot : Walked Layout)
      → region.address ≤ base
      → HasStates region
      → IsHonest snapshot
      → (after : Walked Layout) × (walk_page_ranges region base bytes snapshot ≡ some after)
        × IsGrown (IsCell region base bytes) snapshot.spans after
  unfolding walk_page_ranges
  walk_page_ranges-IsGrown snapshot inside states honest =
      let reaches =
        div_ceil-reaches (slice_offset region base) (cell_unit region) (cell_unit-pos region) in
      iterate-returns (cell_round region base bytes (cell_unit region))
        (λ s.
          IsGrown (IsCell region base bytes) snapshot.spans s.1
          × (slice_offset region base ≤ s.0 * cell_unit region))
        (λ s. slice_end region base bytes - s.0 * cell_unit region)
        (IsGrown (IsCell region base bytes) snapshot.spans)
        (cell_round-Keeps snapshot.spans inside states) (length bytes + 1)
        (div_ceil (slice_offset region base) (cell_unit region), snapshot)
        ((honest, Grows-self (IsCell region base bytes) snapshot.spans), reaches) (omega arith)
