-- ===== src/Walk/Regions/Grows.antt =====
-- What the decoders add to a snapshot: spans of which something holds, and no claim that is not true.
use dbgscope.Base.{
  ◌≡◌, refl, ap, ◌∙◌, false, ◌&&◌, leb, Bool-cases, inl, inr, Option, none, some, List, [], ◌∷◌,
  ◌++◌, All,
}
use dbgscope.Base.Members.{All-map, All-append_one}
use dbgscope.Pool.{PoolSpan, is_coverage_gap}
use dbgscope.Snapshot.Spans.{PoolSnapshot, PoolMatchLimit, is_match, stop_after, record_span}
use dbgscope.Snapshot.Spans.Matches.{IsHonest, record_span-IsHonest, cleared}
use dbgscope.Walk.Complaints.{Complaint}
use dbgscope.Walk.Regions.{Walked, complain, not_complete}

-- The later spans are the earlier ones, and more of which a predicate holds.
abbrev pub Grows : (PoolSpan → Type 0) → List PoolSpan → List PoolSpan → Type 0
Grows P before after = (added : List PoolSpan) × (after ≡ before ++ added) × All P added

append_nil : (xs : List PoolSpan) → xs ≡ xs ++ []
append_nil [] = refl
append_nil (x ∷ xs) = ap (λ t. x ∷ t) (append_nil xs)

pub append_assoc : (xs ys zs : List PoolSpan) → (xs ++ ys) ++ zs ≡ xs ++ (ys ++ zs)
append_assoc [] ys zs = refl
append_assoc (x ∷ xs) ys zs = ap (λ t. x ∷ t) (append_assoc xs ys zs)

pub Grows-self : (P : PoolSpan → Type 0) (spans : List PoolSpan) → Grows P spans spans
Grows-self P spans = ([], append_nil spans, tt)

pub Grows-map :
    (P Q : PoolSpan → Type 0) (before after : List PoolSpan)
    → ((span : PoolSpan) → P span → Q span)
    → Grows P before after
    → Grows Q before after
Grows-map P Q before after f (added, e, all) = (added, e, All-map P Q added f all)

All-append :
    (P : PoolSpan → Type 0) (xs ys : List PoolSpan) → All P xs → All P ys → All P (xs ++ ys)
All-append P [] ys h k = k
All-append P (x ∷ xs) ys h k = (h.0, All-append P xs ys h.1 k)

pub Grows-trans :
    (P : PoolSpan → Type 0) (first second third : List PoolSpan)
    → Grows P first second
    → Grows P second third
    → Grows P first third
Grows-trans P first second third (xs, e, all) (ys, f, more) =
    (xs ++ ys, f ∙ ap (λ t. t ++ ys) e ∙ append_assoc first xs ys, All-append P xs ys all more)

module _ {Layout Diagnostics : Type 0} where
  stop_after-spans :
      (limit : Option PoolMatchLimit) (self : PoolSnapshot Layout Diagnostics)
      → (stop_after limit self).spans ≡ self.spans
  stop_after-spans none self = refl
  stop_after-spans (some limit) self =
      elim (Bool-cases (leb limit.matches self.matched_allocations)) [ inl e ↦ rw e | inr e ↦ rw e ]

  pub record_span-spans :
      (self : PoolSnapshot Layout Diagnostics) (span : PoolSpan)
      → (record_span self span).spans ≡ self.spans ++ (span ∷ [])
  unfolding record_span
  record_span-spans self span = elim (Bool-cases (is_match self.match_limit span)) [
    | inl e ↦ rw e (stop_after-spans self.match_limit _)
    | inr e ↦ rw e
  ]

module _ {Layout : Type 0} (P : PoolSpan → Type 0) (before : List PoolSpan) where
  -- A snapshot that is honest and has grown so far.
  abbrev pub IsGrown : Walked Layout → Type 0
  IsGrown after = IsHonest after × Grows P before after.spans

  pub not_complete-IsGrown : (after : Walked Layout) → IsGrown after → IsGrown (not_complete after)
  not_complete-IsGrown after (honest, grown) = (cleared after.spans after.complete honest, grown)

  -- A complaint changes no span.
  pub complained-IsGrown :
      (complaint : Complaint) (after : Walked Layout)
      → IsGrown after
      → IsGrown (not_complete (complain complaint after))
  complained-IsGrown complaint after (honest, grown) =
      (cleared after.spans after.complete honest, grown)

  pub record_span-IsGrown :
      (after : Walked Layout) (span : PoolSpan)
      → IsGrown after
      → is_coverage_gap span.state && after.complete ≡ false
      → P span
      → IsGrown (record_span after span)
  record_span-IsGrown after span (honest, (added, e, all)) fair h = (
    record_span-IsHonest after span honest fair,
    (
      added ++ (span ∷ []),
      record_span-spans after span
          ∙ ap (λ t. t ++ (span ∷ [])) e
          ∙ append_assoc before added (span ∷ []),
      All-append_one P added span all h,
    ),
  )
