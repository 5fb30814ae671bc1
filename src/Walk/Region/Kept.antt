-- ===== src/Walk/Region/Kept.antt =====
-- What a walk records stays recorded, and the snapshot stays honest.
use dbgscope.Base.{
  ℕ, ◌≡◌, refl, sym, subst, Bool, true, false, not, ◌&&◌, ◌||◌, some, List, [], ◌∷◌, ◌++◌, any, All,
}
use dbgscope.Base.Members.{All-map}
use dbgscope.Base.Words.{IsU64, saturating_add}
use dbgscope.Pool.{PoolSpan, is_coverage_gap}
use dbgscope.Walk.Memory.{PoolMemory}
use dbgscope.Walk.Regions.{PoolRegion, Walked, unreadable_space}
use dbgscope.Walk.Regions.Gaps.{unreadable_space-Added}
use dbgscope.Walk.Regions.Tiles.{Added}
use dbgscope.Walk.Regions.Grows.{Grows, Grows-map, Grows-trans, IsGrown}

-- Nothing is asked of a span.
abbrev pub AnySpan : PoolSpan → Type 0
AnySpan span = Unit

-- The snapshot is honest, and holds the earlier spans first, in their order.
abbrev pub IsKept : {Layout : Type 0} → List PoolSpan → Walked Layout → Type 0
IsKept before after = IsGrown AnySpan before after

anything : (spans : List PoolSpan) → All AnySpan spans
anything [] = tt
anything (span ∷ spans) = (tt, anything spans)

-- A later snapshot that has grown from a kept one is kept.
pub IsKept-from :
    {Layout : Type 0} (P : PoolSpan → Type 0) (before middle : List PoolSpan)
    (after : Walked Layout)
    → Grows AnySpan before middle
    → IsGrown P middle after
    → IsKept before after
IsKept-from P before middle after first (honest, grown) = (
  honest,
  Grows-trans AnySpan before middle after.spans first
      (Grows-map P AnySpan middle after.spans (λ span h. tt) grown),
)

weaker : (g c m : Bool) → g && c ≡ false → g && (c && not m) ≡ false
weaker true c true h = and_false c
  where
    and_false : (b : Bool) → b && false ≡ false
    and_false true = refl
    and_false false = refl
weaker true true false h = h
weaker true false false h = refl
weaker false c m h = refl

noticed : (g c m : Bool) → (g ≡ true → m ≡ true) → g && (c && not m) ≡ false
noticed false c m h = refl
noticed true c true h = and_false c
  where
    and_false : (b : Bool) → b && false ≡ false
    and_false true = refl
    and_false false = refl
noticed true c false h = absurd (cc (h refl))

each_noticed :
    (c : Bool) (spans : List PoolSpan)
    → All
        (λ span.
          is_coverage_gap span.state && (c && not (any (λ s. is_coverage_gap s.state) spans))
          ≡ false)
        spans
each_noticed c spans = below spans (any (λ s. is_coverage_gap s.state) spans) (λ h. h)
  where
    below :
        (xs : List PoolSpan) (m : Bool)
        → (any (λ s. is_coverage_gap s.state) xs ≡ true → m ≡ true)
        → All (λ span. is_coverage_gap span.state && (c && not m) ≡ false) xs
    below [] m h = tt
    below (x ∷ xs) m h = (
      noticed (is_coverage_gap x.state) c m (λ g. h (rw g)),
      below xs m (λ later. h (either (is_coverage_gap x.state) later)),
    )
      where
        either :
            (g : Bool)
            → any (λ s. is_coverage_gap s.state) xs ≡ true
            → g || any (λ s. is_coverage_gap s.state) xs ≡ true
        either true later = refl
        either false later = later

All-append :
    (P : PoolSpan → Type 0) (xs ys : List PoolSpan) → All P xs → All P ys → All P (xs ++ ys)
All-append P [] ys h k = k
All-append P (x ∷ xs) ys h k = (h.0, All-append P xs ys h.1 k)

Added-IsKept :
    {Layout : Type 0} (address end : ℕ) (first : List PoolSpan) (before after : Walked Layout)
    (missed : Bool)
    → Added address end before after missed
    → IsKept first before
    → IsKept first after
Added-IsKept address end first before after missed added (honest, grown) = (
  subst (λ spans. All (λ span. is_coverage_gap span.state && after.complete ≡ false) spans)
      (sym added.grown)
      (subst
        (λ c. All (λ span. is_coverage_gap span.state && c ≡ false) (before.spans ++ added.spans))
        (sym added.honest)
        (subst
          (λ m.
            All (λ span. is_coverage_gap span.state && (before.complete && not m) ≡ false)
              (before.spans ++ added.spans))
          (sym added.counts)
          (All-append _ before.spans added.spans
            (All-map _ _ before.spans
              (λ span h. weaker (is_coverage_gap span.state) before.complete _ h) honest)
            (each_noticed before.complete added.spans)))),
  Grows-trans AnySpan first before.spans after.spans grown
      (added.spans, added.grown, anything added.spans),
)

pub unreadable_space-IsKept :
    {World Layout : Type 0} (memory : PoolMemory World) (region : PoolRegion)
    (first : List PoolSpan) (address size : ℕ) (w : World) (before : Walked Layout)
    → IsU64 address
    → IsKept first before
    → (o : World × Walked Layout × Bool) × (unreadable_space memory region address size w before
        ≡ some o)
      × IsKept first o.1
unreadable_space-IsKept memory region first address size w before word kept =
    let (o, e, added) = unreadable_space-Added memory region address before size w word in
    (o, e, Added-IsKept address (saturating_add address size) first before o.1 o.2 added kept)
