-- ===== src/Walk/Slots/Lfh.antt =====
-- The spans over the slots of a low fragmentation heap's subsegment.
use dbgscope.Base.{
  ℕ, ◌+◌, ◌-◌, ◌*◌, ◌/◌, ◌≤◌, ◌<◌, ◌≡◌, refl, ap, sym, subst, arith, Bool, true, false, ◌&&◌, ◌==◌,
  ==_iff, ltb, if◌then◌else◌, bit_and, ◌%◌, ◌^◌, Bool-cases, inl, inr, Option, none, some, ◌>>=◌,
  some_inj, List, length, get_elem?,
}
use dbgscope.Base.Words.{checked_mul, saturating_add, u64_max}
use dbgscope.Decode.Header.{page_size}
use dbgscope.Decode.Lfh.{lfh_bitmap_state}
use dbgscope.Pool.{PoolState, PoolSpan, is_coverage_gap, allocated, reusable_free}
use dbgscope.Snapshot.Spans.{match_limit_reached}
use dbgscope.Snapshot.Spans.Matches.{IsHonest}
use dbgscope.Walk.Complaints.{truncated_bitmap, implausible_unit}
use dbgscope.Walk.Regions.{PoolRegion, Walked, base_span}
use dbgscope.Walk.Regions.Grows.{Grows-self, IsGrown, complained-IsGrown, record_span-IsGrown}
use dbgscope.Walk.Rounds.{Round, Keeps, iterate-returns}
use dbgscope.Walk.Slots.{
  div_ceil, slice_offset, slice_end, next_slot, file_slot, place_slot, lfh_round, walk_lfh,
}
use native.Mathlib.Nat.{lt-div-mul-add}

pub div_ceil-reaches : (n unit : ℕ) → 0 < unit → n ≤ div_ceil n unit * unit
div_ceil-reaches n unit h = omega (arith, lt-div-mul-add {a = n + (unit - 1)} h)

pub suc-mul : (n unit : ℕ) → (n + 1) * unit ≡ n * unit + unit
suc-mul n unit = omega arith

lfh_state_lem :
    (bitmap : List ℕ) (slot : ℕ) {state : PoolState}
    → lfh_bitmap_state bitmap slot ≡ some state
    → is_coverage_gap state ≡ false
unfolding lfh_bitmap_state is_coverage_gap
lfh_state_lem bitmap slot {state} h = of_byte (get_elem? bitmap (slot / 8)) h
  where
    chosen :
        (b : Bool)
        → some (if b then reusable_free else allocated) ≡ some state
        → is_coverage_gap state ≡ false
    chosen true e = ap is_coverage_gap (sym (some_inj e))
    chosen false e = ap is_coverage_gap (sym (some_inj e))

    of_byte :
        (byte : Option ℕ)
        → (byte >>= λ b.
            some (if bit_and (b / 2 ^ (slot % 8)) 1 == 0 then reusable_free else allocated))
          ≡ some state
        → is_coverage_gap state ≡ false
    of_byte none e = absurd (cc)
    of_byte (some b) e = chosen (bit_and (b / 2 ^ (slot % 8)) 1 == 0) e

pub checked_mul-eq : (a b : ℕ) {c : ℕ} → checked_mul a b ≡ some c → c ≡ a * b
checked_mul-eq a b {c} e = of_test (ltb (a * b) (2 ^ 64)) e
  where
    of_test : (t : Bool) → (if t then some (a * b) else none) ≡ some c → c ≡ a * b
    of_test true f = sym (some_inj f)
    of_test false f = absurd (cc)

module _ (region : PoolRegion) (base : ℕ) (bytes : List ℕ) where
  -- A span that is one slot of the subsegment, in the state that the bitmap has for it, within the bytes
  -- and within one page.
  abbrev pub IsSlot : PoolSpan → Type 0
  IsSlot span =
      (slot : ℕ) × (span.header_address ≡ region.address + slot * region.unit_size)
      × (lfh_bitmap_state region.bitmap slot ≡ some span.state)
      × (base ≤ span.header_address)
      × (span.usable_address + span.size ≡ span.header_address + region.unit_size)
      × (span.usable_address + span.size ≤ base + length bytes)
      × (span.header_address / page_size ≡ (span.header_address + region.unit_size - 1) / page_size)

module _ {Layout : Type 0} (region : PoolRegion) (base : ℕ) (bytes : List ℕ) where
  module _ (before : List PoolSpan) (inside : region.address ≤ base)
      (some_unit : 0 < region.unit_size) (room : region.pool_header.size ≤ region.unit_size)
      (ends : base + length bytes < u64_max) where
    abbrev IsSlotWalk : ℕ × Walked Layout → Type 0
    IsSlotWalk s =
        IsGrown (IsSlot region base bytes) before s.1
        × (slice_offset region base ≤ s.0 * region.unit_size)

    abbrev left : ℕ × Walked Layout → ℕ
    left s = slice_end region base bytes - s.0 * region.unit_size

    abbrev KeepsSlots : ℕ → Round (ℕ × Walked Layout) (Walked Layout) → Type 0
    KeepsSlots = Keeps IsSlotWalk left (IsGrown (IsSlot region base bytes) before)

    next_slot-Keeps :
        (slot : ℕ) (snapshot : Walked Layout)
        → IsGrown (IsSlot region base bytes) before snapshot
        → slice_offset region base ≤ slot * region.unit_size
        → slot * region.unit_size + region.unit_size ≤ slice_end region base bytes
        → KeepsSlots
            (slice_end region base bytes - slot * region.unit_size)
            (next_slot region base bytes slot snapshot)
    next_slot-Keeps slot snapshot grown low fits =
        elim (Bool-cases (match_limit_reached snapshot)) [
          | inl reached ↦ rw (Keeps, reached) grown
          | inr goes ↦
              rw (Keeps, goes)
                (
                  (grown, omega (arith, suc-mul slot region.unit_size)),
                  omega (arith, suc-mul slot region.unit_size),
                )
        ]

    file_slot-Keeps :
        (slot : ℕ) (snapshot : Walked Layout) (state : Option PoolState)
        → lfh_bitmap_state region.bitmap slot ≡ state
        → IsGrown (IsSlot region base bytes) before snapshot
        → slice_offset region base ≤ slot * region.unit_size
        → slot * region.unit_size + region.unit_size ≤ slice_end region base bytes
        → (region.address + slot * region.unit_size) / page_size
          ≡ (region.address + slot * region.unit_size + region.unit_size - 1) / page_size
        → KeepsSlots (slice_end region base bytes - slot * region.unit_size) (
            file_slot region base bytes region.unit_size slot
              (slot * region.unit_size)
              snapshot
              state)
    unfolding base_span
    file_slot-Keeps slot snapshot none e grown low fits page =
        complained-IsGrown (IsSlot region base bytes) before (truncated_bitmap slot) snapshot grown
    file_slot-Keeps slot snapshot (some state) e grown low fits page =
        next_slot-Keeps slot _
          (record_span-IsGrown (IsSlot region base bytes) before snapshot _ grown
            (ap (λ g. g && snapshot.complete) (lfh_state_lem region.bitmap slot e))
            (slot, refl, e, omega arith, omega arith, omega arith, page))
          low fits

    place_slot-Keeps :
        (slot : ℕ) (snapshot : Walked Layout) (offset : Option ℕ)
        → checked_mul slot region.unit_size ≡ offset
        → IsSlotWalk (slot, snapshot)
        → KeepsSlots
            (left (slot, snapshot))
            (place_slot region base bytes region.unit_size slot snapshot offset)
    place_slot-Keeps slot snapshot none e h = h.0
    place_slot-Keeps slot snapshot (some offset) e (grown, low) =
        let here : offset ≡ slot * region.unit_size = checked_mul-eq slot region.unit_size e in
        subst
          (λ o.
            KeepsSlots (left (slot, snapshot))
              (place_slot region base bytes region.unit_size slot snapshot (some o)))
          (sym here)
          (elim (Bool-cases (
            ltb (slice_end region base bytes)
              (saturating_add (slot * region.unit_size) region.unit_size))) [
                | inl beyond ↦ rw (Keeps, beyond) grown
                | inr fits ↦
                    elim (Bool-cases (
                      (region.address + slot * region.unit_size) / page_size
                      == (region.address + slot * region.unit_size + region.unit_size - 1)
                        / page_size)) [
                          | inl page ↦
                              rw (Keeps, fits, page)
                                (file_slot-Keeps slot snapshot (lfh_bitmap_state region.bitmap slot)
                                  refl grown low (within fits) ((==_iff _ _).0 page))
                          | inr straddles ↦
                              rw (Keeps, fits, straddles)
                                (
                                  (grown, omega (arith, suc-mul slot region.unit_size)),
                                  omega (arith, suc-mul slot region.unit_size, within fits),
                                )
                        ]
              ])
      where
        within :
            ltb
                (slice_end region base bytes)
                (saturating_add (slot * region.unit_size) region.unit_size)
              ≡ false
            → slot * region.unit_size + region.unit_size ≤ slice_end region base bytes
        within fits = ground (arith, fits)

    lfh_round-Keeps :
        (s : ℕ × Walked Layout)
        → IsSlotWalk s
        → KeepsSlots (left s) (lfh_round region base bytes region.unit_size s)
    unfolding lfh_round
    lfh_round-Keeps (slot, snapshot) h =
        place_slot-Keeps slot snapshot (checked_mul slot region.unit_size) refl h

  -- Over the bytes of an extent that begins in the region, and ends before the last address, the walk over
  -- the slots ends; the snapshot stays honest, and the spans that are added are slots of the subsegment in
  -- the state that the bitmap has for them, within the bytes, and none straddles a page. The unit is not
  -- zero.
  pub walk_lfh-IsGrown :
      (snapshot : Walked Layout)
      → region.address ≤ base
      → 0 < region.unit_size
      → base + length bytes < u64_max
      → IsHonest snapshot
      → (after : Walked Layout) × (walk_lfh region base bytes snapshot ≡ some after)
        × IsGrown (IsSlot region base bytes) snapshot.spans after
  unfolding walk_lfh
  walk_lfh-IsGrown snapshot inside some_unit ends honest =
      let start : IsGrown (IsSlot region base bytes) snapshot.spans snapshot =
        (honest, Grows-self (IsSlot region base bytes) snapshot.spans) in
      elim (Bool-cases (ltb region.unit_size region.pool_header.size)) [
        | inl implausible ↦ rw implausible (
          _,
          refl,
          complained-IsGrown (IsSlot region base bytes) snapshot.spans
              (implausible_unit region.unit_size base) snapshot start,
        )
        | inr plausible ↦
            let nonzero : (region.unit_size == 0) ≡ false = ground arith in
            rw (plausible, nonzero)
              (iterate-returns (lfh_round region base bytes region.unit_size)
                (λ s.
                  IsGrown (IsSlot region base bytes) snapshot.spans s.1
                  × (slice_offset region base ≤ s.0 * region.unit_size))
                (λ s. slice_end region base bytes - s.0 * region.unit_size)
                (IsGrown (IsSlot region base bytes) snapshot.spans)
                (lfh_round-Keeps snapshot.spans inside some_unit (ground arith) ends)
                (length bytes + 1) (div_ceil (slice_offset region base) region.unit_size, snapshot)
                (start, div_ceil-reaches (slice_offset region base) region.unit_size some_unit)
                (omega
                  (arith, div_ceil-reaches (slice_offset region base) region.unit_size some_unit)))
      ]
