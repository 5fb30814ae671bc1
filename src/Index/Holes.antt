-- ===== src/Index/Holes.antt =====
-- The holes beside an allocation, and the loop which finds them.
use dbgscope.Base.{
  ℕ, zero, suc, ◌+◌, ◌-◌, ◌≤◌, ◌<◌, ◌≡◌, refl, ap, sym, subst, arith, Bool, true, false, ◌&&◌, ◌==◌,
  min, none, some, List, [], ◌∷◌, length, get_elem?, get_elem?-lt, get_elem?-some, inl, inr,
}
use dbgscope.Base.Words.{u64_max}
use dbgscope.Pool.{PoolSpan, PoolState}
use dbgscope.Index.{PoolIndex, Direction, Hole, next_hole, holes, holes_from, hole_at}
use dbgscope.Index.Boundaries.{Bordered}
use dbgscope.Index.Rounds.{Beside, AreBeside, IsStop, next_hole-IsRound}

-- How far a span lies from the origin: from the end of the one to the start of the other, where an
-- end is no further than the last address, and 0 where they overlap.
abbrev pub apart : Direction → PoolSpan → PoolSpan → ℕ
apart Direction.underflow origin span =
    origin.usable_address - min (span.usable_address + span.size) u64_max
apart Direction.overflow origin span =
    span.usable_address - min (origin.usable_address + origin.size) u64_max

module _ (spans : List PoolSpan) where
  -- A list of holes that starts beside a position: each is the next span in the direction, on this side
  -- of every boundary and not allocated, with the span's own place, size and state, its distance from
  -- the origin, and immediate if it is the first and touches the origin; and it ends at a stop.
  pub IsRun : PoolSpan → Direction → ℕ → Bool → List Hole → Type 0
  IsRun origin direction cursor first [] = IsStop spans direction cursor
  IsRun origin direction cursor first (hole ∷ rest) =
      (here : PoolSpan) × (span : PoolSpan) × AreBeside spans direction cursor hole.span_index here
        span
      × Bordered here span
      × (¬ (span.state ≡ PoolState.allocated))
      × (hole.address ≡ span.usable_address)
      × (hole.size ≡ span.size)
      × (hole.state ≡ span.state)
      × (hole.distance ≡ apart direction origin span)
      × (hole.immediate ≡ first && apart direction origin span == 0)
      × IsRun origin direction hole.span_index false rest

module _ {Layout Diagnostics : Type 0} (self : PoolIndex Layout Diagnostics) where
  -- How many spans lie ahead of a position.
  abbrev room : Direction → ℕ → ℕ
  room Direction.underflow cursor = cursor
  room Direction.overflow cursor = length self.spans - 1 - cursor

  room_bound :
      (direction : Direction) (cursor : ℕ)
      → cursor < length self.spans
      → room direction cursor ≤ length self.spans
  room_bound Direction.underflow cursor h = omega arith
  room_bound Direction.overflow cursor h = omega arith

  room-Beside :
      (direction : Direction) (cursor index : ℕ)
      → Beside direction cursor index
      → index < length self.spans
      → room direction cursor ≡ suc (room direction index)
  room-Beside Direction.underflow cursor index b inside = b
  room-Beside Direction.overflow cursor index b inside = omega arith

  module _ (fuel : ℕ) (origin : PoolSpan) (direction : Direction) (cursor : ℕ) (first : Bool) where
    holes_from_end :
        next_hole self direction cursor ≡ none
        → holes_from self (suc fuel) origin direction cursor first ≡ []
    unfolding holes_from
    holes_from_end e = rw (holes_from, e)

    holes_from_next :
        (index : ℕ) (span : PoolSpan)
        → next_hole self direction cursor ≡ some (index, span)
        → holes_from self (suc fuel) origin direction cursor first
          ≡ hole_at origin direction index span first
            ∷ holes_from self fuel origin direction index false
    unfolding holes_from
    holes_from_next index span e = rw (holes_from, e)

  hole_at-apart :
      (origin : PoolSpan) (direction : Direction) (index : ℕ) (span : PoolSpan) (first : Bool)
      → (hole_at origin direction index span first).distance ≡ apart direction origin span
  hole_at-apart origin Direction.underflow index span first = ground arith
  hole_at-apart origin Direction.overflow index span first = ground arith

  holes_from-IsRun :
      (fuel : ℕ) (origin : PoolSpan) (direction : Direction) (cursor : ℕ) (first : Bool)
      → length self.spans ≤ u64_max
      → cursor < length self.spans
      → room direction cursor ≤ fuel
      → IsRun self.spans origin direction cursor first
          (holes_from self fuel origin direction cursor first)
  unfolding IsRun holes_from
  holes_from-IsRun zero origin direction cursor first small h enough =
      elim (next_hole-IsRound self direction cursor small h) [
        | inl ended ↦ ended.0
        | inr found ↦
            let (index, here, span, are, bordered, idle, e) = found in
            absurd (
              omega (
                arith,
                room-Beside direction cursor index are.2 (get_elem?-lt self.spans index are.1),
              ))
      ]
  holes_from-IsRun (suc fuel) origin direction cursor first small h enough =
      elim (next_hole-IsRound self direction cursor small h) [
        | inl ended ↦
            subst (IsRun self.spans origin direction cursor first)
              (sym (holes_from_end fuel origin direction cursor first ended.1)) ended.0
        | inr found ↦
            let (index, here, span, are, bordered, idle, e) = found in
            let inside = get_elem?-lt self.spans index are.1 in
            let distance = hole_at-apart origin direction index span first in
            let rest =
              holes_from-IsRun fuel origin direction index false small inside
                (omega (arith, room-Beside direction cursor index are.2 inside)) in
            subst (IsRun self.spans origin direction cursor first)
              (sym (holes_from_next fuel origin direction cursor first index span e))
              (
                here,
                span,
                are,
                bordered,
                idle,
                refl,
                refl,
                refl,
                distance,
                ap (λ d. first && d == 0) distance,
                rest,
              )
      ]

  holes_at :
      (allocation : ℕ) (direction : Direction) (origin : PoolSpan)
      → get_elem? self.spans allocation ≡ some origin
      → holes self allocation direction
        ≡ holes_from self (length self.spans) origin direction allocation true
  unfolding holes
  holes_at allocation direction origin e = rw (holes, e)

  -- In an index whose positions are words, the holes beside a span are the spans in the direction, one
  -- after the other, as long as they are not allocated and lie in the pool, node, heap, backend and
  -- subsegment of the one before, both of them chunks; and the first that does not, or the last span,
  -- ends them. Each hole has the place, the size and the state of its span and its distance from the
  -- allocation, and only the first can be immediate: it is if that distance is 0. So the loop ends.
  pub holes-IsRun :
      (allocation : ℕ) (direction : Direction)
      → length self.spans ≤ u64_max
      → allocation < length self.spans
      → (origin : PoolSpan) × (get_elem? self.spans allocation ≡ some origin)
        × IsRun self.spans origin direction allocation true (holes self allocation direction)
  holes-IsRun allocation direction small h =
      let (origin, e) = get_elem?-some self.spans allocation h in
      (
        origin,
        e,
        subst (IsRun self.spans origin direction allocation true)
            (sym (holes_at allocation direction origin e))
            (holes_from-IsRun (length self.spans) origin direction allocation true small h
              (room_bound direction allocation h)),
      )
