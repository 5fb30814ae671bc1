-- ===== src/Walk/Regions/Tiles.antt =====
-- What a span over memory that is not decoded adds to a snapshot.
use dbgscope.Base.{
  ℕ, ◌+◌, ◌<◌, ◌≡◌, refl, ap, sym, ◌∙◌, arith, Bool, true, false, not, ◌&&◌, ◌||◌, ◌==◌, Bool-cases,
  inl, inr, Option, none, some, List, [], ◌∷◌, ◌++◌, any,
}
use dbgscope.Pool.{PoolState, PoolSpan, is_coverage_gap}
use dbgscope.Pool.Same.{is_allocated}
use dbgscope.Snapshot.Spans.{PoolMatchLimit, accepts, is_match, record_span}
use dbgscope.Walk.Regions.{PoolRegion, Walked, base_span, gap}

-- The spans follow on one another from the start to the end, and none is empty.
abbrev pub Tiles : ℕ → ℕ → List PoolSpan → Type 0
Tiles start end [] = start ≡ end
Tiles start end (span ∷ spans) =
    (span.header_address ≡ start)
    × (span.usable_address ≡ start)
    × (0 < span.size)
    × Tiles (start + span.size) end spans

Tiles-append :
    (start end : ℕ) (spans : List PoolSpan) (span : PoolSpan)
    → Tiles start end spans
    → span.header_address ≡ end
    → span.usable_address ≡ end
    → 0 < span.size
    → Tiles start (end + span.size) (spans ++ (span ∷ []))
Tiles-append start end [] span e header usable size =
    (header ∙ sym e, usable ∙ sym e, size, omega arith)
Tiles-append start end (first ∷ spans) span h header usable size =
    (h.0, h.1, h.2, Tiles-append (start + first.size) end spans span h.3 header usable size)

module _ {Layout : Type 0} where
  -- What a walk over a gap has added.
  pub record Added (address end : ℕ) (before after : Walked Layout) (missed : Bool) : Type 0 where
    pub spans : List PoolSpan
    pub grown : after.spans ≡ before.spans ++ spans
    pub tiles : Tiles address end spans
    pub counts : missed ≡ any (λ span. is_coverage_gap span.state) spans
    pub honest : after.complete ≡ before.complete && not missed

any-append_one :
    (p : PoolSpan → Bool) (spans : List PoolSpan) (span : PoolSpan)
    → any p (spans ++ (span ∷ [])) ≡ any p spans || p span
any-append_one p [] span = or_false (p span)
  where
    or_false : (x : Bool) → x || false ≡ x
    or_false true = refl
    or_false false = refl
any-append_one p (first ∷ spans) span = elim (Bool-cases (p first)) [
  | inl e ↦ rw e
  | inr e ↦ rw (e) (any-append_one p spans span)
]

unmatched :
    (limit : Option PoolMatchLimit) (span : PoolSpan)
    → is_allocated span.state ≡ false
    → is_match limit span ≡ false
unfolding accepts
unmatched none span h = refl
unmatched (some limit) span h = rw h

and_not : (c m g : Bool) → (c && not m) && not g ≡ c && not (m || g)
and_not true true g = refl
and_not true false g = refl
and_not false m g = refl

append_assoc :
    (xs ys : List PoolSpan) (z : PoolSpan) → (xs ++ ys) ++ (z ∷ []) ≡ xs ++ (ys ++ (z ∷ []))
append_assoc [] ys z = refl
append_assoc (x ∷ xs) ys z = ap (λ t. x ∷ t) (append_assoc xs ys z)

pub and_true : (c : Bool) → c ≡ c && true
and_true true = refl
and_true false = refl

and_false : (c : Bool) → false ≡ c && false
and_false true = refl
and_false false = refl

pub ||-comm : (x y : Bool) → x || y ≡ y || x
||-comm true true = refl
||-comm true false = refl
||-comm false true = refl
||-comm false false = refl

pub append_nil : (xs : List PoolSpan) → xs ≡ xs ++ []
append_nil [] = refl
append_nil (x ∷ xs) = ap (λ t. x ∷ t) (append_nil xs)

module _ {Layout : Type 0} (region : PoolRegion) where
  -- The snapshot with a gap in it.
  abbrev with_gap : ℕ → ℕ → PoolState → Walked Layout → Walked Layout
  with_gap address size state snapshot = record snapshot {
    spans = snapshot.spans ++ (base_span region address address size 0 state ∷ []);
    complete = snapshot.complete && not (is_coverage_gap state);
  }

  gap-with_gap :
      (address size : ℕ) (state : PoolState) (snapshot : Walked Layout)
      → is_allocated state ≡ false
      → (size == 0) ≡ false
      → gap region address size state snapshot
        ≡ (with_gap address size state snapshot, is_coverage_gap state)
  unfolding gap record_span base_span
  gap-with_gap address size state snapshot idle some_size =
      elim (Bool-cases (is_coverage_gap state)) [
        | inl missed ↦
            rw
              (
                some_size,
                missed,
                unmatched snapshot.match_limit (base_span region address address size 0 state) idle,
              )
              (ap
                (λ c. (
                  record snapshot {
                    spans = snapshot.spans ++ (base_span region address address size 0 state ∷ []);
                    complete = c;
                  },
                  true,
                ))
                (and_false snapshot.complete))
        | inr kept ↦
            rw
              (
                some_size,
                kept,
                unmatched snapshot.match_limit (base_span region address address size 0 state) idle,
              )
              (ap
                (λ c. (
                  record snapshot {
                    spans = snapshot.spans ++ (base_span region address address size 0 state ∷ []);
                    complete = c;
                  },
                  false,
                ))
                (and_true snapshot.complete))
      ]

  pub Added-gap :
      (address cursor size : ℕ) (state : PoolState) (before snapshot : Walked Layout)
      (missed : Bool)
      → is_allocated state ≡ false
      → 0 < size
      → Added address cursor before snapshot missed
      → Added address
          (cursor + size)
          before
          (gap region cursor size state snapshot).0
          (missed || (gap region cursor size state snapshot).1)
  unfolding base_span
  Added-gap address cursor size state before snapshot missed idle some_size added =
      rw (gap-with_gap cursor size state snapshot idle (ground arith)) (record {
        spans = added.spans ++ (base_span region cursor cursor size 0 state ∷ []);
        grown =
            ap (λ xs. xs ++ (base_span region cursor cursor size 0 state ∷ [])) added.grown
            ∙ append_assoc before.spans added.spans (base_span region cursor cursor size 0 state);
        tiles =
            Tiles-append address cursor added.spans (base_span region cursor cursor size 0 state)
              added.tiles refl refl some_size;
        counts =
            ap (λ m. m || is_coverage_gap state) added.counts
            ∙ sym (
                any-append_one (λ span. is_coverage_gap span.state) added.spans
                  (base_span region cursor cursor size 0 state));
        honest =
            ap (λ c. c && not (is_coverage_gap state)) added.honest
            ∙ and_not before.complete missed (is_coverage_gap state);
      })
