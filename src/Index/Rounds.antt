-- ===== src/Index/Rounds.antt =====
-- A round of the loop over the holes beside an allocation.
use dbgscope.Base.{
  ℕ, zero, suc, ◌≤◌, ◌<◌, ◌≡◌, ◌⊎◌, refl, ap, arith, Bool, Bool-cases, true, false, ltb, Option,
  Option-cases, none, some, ◌>>=◌, then_some, List, [], ◌∷◌, length, get_elem?, get_elem?-lt,
  get_elem?-some, inl, inr,
}
use dbgscope.Base.Words.{u64_max, checked_add, checked_sub}
use dbgscope.Pool.{PoolSpan, PoolState}
use dbgscope.Pool.Same.{is_allocated}
use dbgscope.Index.{PoolIndex, Direction, same_boundary, predecessor, successor, step, next_hole}
use dbgscope.Index.Neighbours.{predecessor_previous}
use dbgscope.Index.Boundaries.{
  Bordered, Bordered-sym, same_boundary_sound, same_boundary_complete, is_allocated_sound,
}

-- The second position is the next in the direction.
abbrev pub Beside : Direction → ℕ → ℕ → Type 0
Beside Direction.underflow cursor index = cursor ≡ suc index
Beside Direction.overflow cursor index = index ≡ suc cursor

module _ (spans : List PoolSpan) where
  -- There is no position beside this one.
  abbrev pub IsLast : Direction → ℕ → Type 0
  IsLast Direction.underflow cursor = cursor ≡ 0
  IsLast Direction.overflow cursor = suc cursor ≡ length spans

  abbrev pub AreBeside : Direction → ℕ → ℕ → PoolSpan → PoolSpan → Type 0
  AreBeside direction cursor index here span =
      (get_elem? spans cursor ≡ some here)
      × (get_elem? spans index ≡ some span)
      × Beside direction cursor index

  -- The holes end at a position: it is the last, or the span beside it is allocated or lies over a
  -- boundary.
  abbrev pub IsStop : Direction → ℕ → Type 0
  IsStop direction cursor =
      IsLast direction cursor
      ⊎ (index : ℕ) × (here : PoolSpan) × (span : PoolSpan) × AreBeside direction cursor index here
          span
        × ((span.state ≡ PoolState.allocated) ⊎ (¬ Bordered here span))

not_allocated : (s : PoolState) → is_allocated s ≡ false → ¬ (s ≡ PoolState.allocated)
not_allocated s h e = cc (h, ap is_allocated e)

get_elem?-none : (spans : List PoolSpan) (i : ℕ) → length spans ≤ i → get_elem? spans i ≡ none
get_elem?-none [] i h = refl
get_elem?-none (x ∷ xs) zero h = absurd (omega arith)
get_elem?-none (x ∷ xs) (suc i) h = get_elem?-none xs i (omega arith)

bind_none : {A B : Type 0} (m : Option A) (last : Option B) → last ≡ none → (m >>= λ a. last) ≡ none
bind_none none last h = refl
bind_none (some a) last h = h

module _ {Layout Diagnostics : Type 0} (self : PoolIndex Layout Diagnostics) where
  -- The test of the boundary, in the order of the addresses.
  abbrev faces : Direction → PoolSpan → PoolSpan → Bool
  faces Direction.underflow here span = same_boundary span here
  faces Direction.overflow here span = same_boundary here span

  faces_sound :
      (direction : Direction) (here span : PoolSpan)
      → faces direction here span ≡ true
      → Bordered here span
  faces_sound Direction.underflow here span h =
      Bordered-sym span here (same_boundary_sound span here h)
  faces_sound Direction.overflow here span h = same_boundary_sound here span h

  faces_complete :
      (direction : Direction) (here span : PoolSpan)
      → Bordered here span
      → faces direction here span ≡ true
  faces_complete Direction.underflow here span h =
      same_boundary_complete span here (Bordered-sym here span h)
  faces_complete Direction.overflow here span h = same_boundary_complete here span h

  step-AreBeside :
      (direction : Direction) (cursor index : ℕ) (here span : PoolSpan)
      → index ≤ u64_max
      → AreBeside self.spans direction cursor index here span
      → step self direction cursor ≡ then_some (faces direction here span) index
  unfolding predecessor successor
  step-AreBeside Direction.underflow cursor index here span small (h, s, b) =
      let e : checked_sub cursor 1 ≡ some index = ground arith in rw (e, s, h) refl
  step-AreBeside Direction.overflow cursor index here span small (h, s, b) =
      let e : checked_add cursor 1 ≡ some index = ground arith in rw (e, h, s) refl

  step-IsLast :
      (direction : Direction) (cursor : ℕ)
      → IsLast self.spans direction cursor
      → step self direction cursor ≡ none
  unfolding successor
  step-IsLast Direction.underflow cursor h = elim (Option-cases (predecessor self cursor)) [
    | inl ended ↦ ended
    | inr found ↦
        let (previous, e) = found in
        absurd (omega (arith, predecessor_previous self cursor previous e))
  ]
  step-IsLast Direction.overflow cursor h = elim (Option-cases (checked_add cursor 1)) [
    | inl ended ↦ rw ended refl
    | inr found ↦
        let (next, e) = found in
        let outside : get_elem? self.spans next ≡ none =
          get_elem?-none self.spans next (ground arith) in
        rw (e, outside) (bind_none (get_elem? self.spans cursor) none refl)
  ]

  -- A position is the last, or a span is beside it.
  beside :
      (direction : Direction) (cursor : ℕ)
      → cursor < length self.spans
      → IsLast self.spans direction cursor
        ⊎ (index : ℕ) × (here : PoolSpan) × (span : PoolSpan) × AreBeside self.spans direction
            cursor index here span
  beside Direction.underflow zero h = inl refl
  beside Direction.underflow (suc index) h =
      let (here, e) = get_elem?-some self.spans (suc index) h in
      let (span, f) = get_elem?-some self.spans index (omega arith) in
      inr (index, here, span, (e, f, refl))
  beside Direction.overflow cursor h = elim (Bool-cases (ltb (suc cursor) (length self.spans))) [
    | inl inside ↦
        let (here, e) = get_elem?-some self.spans cursor h in
        let (span, f) = get_elem?-some self.spans (suc cursor) (ground (arith, inside)) in
        inr (suc cursor, here, span, (e, f, refl))
    | inr outside ↦ inl (ground (arith, outside, h))
  ]

  -- What a round of the loop does: it goes on to the span beside, or the holes end.
  abbrev pub IsRound : Direction → ℕ → Type 0
  IsRound direction cursor =
      IsStop self.spans direction cursor × (next_hole self direction cursor ≡ none)
      ⊎ (index : ℕ) × (here : PoolSpan) × (span : PoolSpan) × AreBeside self.spans direction cursor
          index here span
        × Bordered here span
        × (¬ (span.state ≡ PoolState.allocated))
        × (next_hole self direction cursor ≡ some (index, span))

  next_hole-AreBeside :
      (direction : Direction) (cursor index : ℕ) (here span : PoolSpan)
      → index ≤ u64_max
      → AreBeside self.spans direction cursor index here span
      → IsRound direction cursor
  next_hole-AreBeside direction cursor index here span small are =
      let stepped = step-AreBeside direction cursor index here span small are in
      elim (Bool-cases (faces direction here span)) [
        | inl faced ↦ elim (Bool-cases (is_allocated span.state)) [
          | inl used ↦ inl (
            inr (index, here, span, are, inl (is_allocated_sound span.state used)),
            rw (stepped, faced, are.1, used) refl,
          )
          | inr idle ↦ inr (
            index,
            here,
            span,
            are,
            faces_sound direction here span faced,
            not_allocated span.state idle,
            rw (stepped, faced, are.1, idle) refl,
          )
        ]
        | inr over ↦ inl (
          inr (
            index,
            here,
            span,
            are,
            inr (λ bordered. cc (over, faces_complete direction here span bordered)),
          ),
          rw (stepped, over) refl,
        )
      ]

  pub next_hole-IsRound :
      (direction : Direction) (cursor : ℕ)
      → length self.spans ≤ u64_max
      → cursor < length self.spans
      → IsRound direction cursor
  next_hole-IsRound direction cursor small h = elim (beside direction cursor h) [
    | inl last ↦ inl (inl last, rw (step-IsLast direction cursor last) refl)
    | inr found ↦
        let (index, here, span, are) = found in
        next_hole-AreBeside direction cursor index here span
          (omega (arith, get_elem?-lt self.spans index are.1)) are
  ]
