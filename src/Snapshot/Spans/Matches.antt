-- ===== src/Snapshot/Spans/Matches.antt =====
-- What a recorded span changes.
use dbgscope.Base.{
  ℕ, ◌+◌, ◌≤◌, ◌≡◌, refl, ap, sym, subst, ◌∙◌, arith, Bool, true, false, ◌&&◌, leb, if◌then◌else◌,
  Bool-cases, inl, inr, min, Option, none, some, List, [], ◌∷◌, ◌++◌, All,
}
use dbgscope.Base.Members.{All-map, All-append_one}
use dbgscope.Base.Words.{saturating_add, u64_max}
use dbgscope.Pool.{PoolSpan, is_coverage_gap}
use dbgscope.Snapshot.Spans.{
  PoolMatchLimit, PoolSnapshot, is_match, stop_after, record_span, match_limit_reached,
}

-- The spans that the limit accepts.
abbrev pub count_matches : Option PoolMatchLimit → List PoolSpan → ℕ
count_matches limit [] = 0
count_matches limit (span ∷ spans) =
    let rest = count_matches limit spans in if is_match limit span then 1 + rest else rest

-- Whether so many matches are enough.
abbrev pub are_enough : Option PoolMatchLimit → ℕ → Bool
are_enough none n = false
are_enough (some limit) n = leb limit.matches n

and_false : (b : Bool) → b && false ≡ false
and_false true = refl
and_false false = refl

pub cleared :
    (spans : List PoolSpan) (c : Bool)
    → All (λ span. is_coverage_gap span.state && c ≡ false) spans
    → All (λ span. is_coverage_gap span.state && false ≡ false) spans
cleared spans c h = All-map _ _ spans (λ span k. and_false (is_coverage_gap span.state)) h

count_matches-append :
    (limit : Option PoolMatchLimit) (spans : List PoolSpan) (span : PoolSpan)
    → count_matches limit (spans ++ (span ∷ []))
      ≡ count_matches limit spans + (if is_match limit span then 1 else 0)
count_matches-append limit [] span = elim (Bool-cases (is_match limit span)) [
  | inl e ↦ rw e
  | inr e ↦ rw e
]
count_matches-append limit (other ∷ spans) span = elim (Bool-cases (is_match limit other)) [
  | inl e ↦ rw (e, count_matches-append limit spans span) (omega arith)
  | inr e ↦ rw (e, count_matches-append limit spans span)
]

enough : (m n : ℕ) → n ≤ u64_max → leb m n ≡ true → leb m (saturating_add n 1) ≡ true
enough m n bound h = ground arith

module _ {Layout Diagnostics : Type 0} where
  -- A snapshot that holds a span over memory which may have been missed does not say that it is complete.
  abbrev pub IsHonest : PoolSnapshot Layout Diagnostics → Type 0
  IsHonest self = All (λ span. is_coverage_gap span.state && self.complete ≡ false) self.spans

  -- The matches are counted, and the walk is told to stop once there are enough, and then the snapshot
  -- does not say that it is complete. A limit asks for one match or more.
  abbrev pub IsCounted : PoolSnapshot Layout Diagnostics → Type 0
  IsCounted self =
      (self.matched_allocations ≡ min (count_matches self.match_limit self.spans) u64_max)
      × (match_limit_reached self ≡ are_enough self.match_limit self.matched_allocations)
      × (match_limit_reached self && self.complete ≡ false)

  stop_after-IsHonest :
      (limit : Option PoolMatchLimit) (self : PoolSnapshot Layout Diagnostics)
      → IsHonest self
      → IsHonest (stop_after limit self)
  stop_after-IsHonest none self h = h
  stop_after-IsHonest (some limit) self h =
      elim (Bool-cases (leb limit.matches self.matched_allocations)) [
        | inl stop ↦ rw (IsHonest, stop) (cleared self.spans self.complete h)
        | inr more ↦ rw (IsHonest, more) h
      ]

  -- A snapshot stays honest when a span is recorded, unless the span is a gap in the coverage and the
  -- snapshot says that it is complete.
  pub record_span-IsHonest :
      (self : PoolSnapshot Layout Diagnostics) (span : PoolSpan)
      → IsHonest self
      → is_coverage_gap span.state && self.complete ≡ false
      → IsHonest (record_span self span)
  unfolding record_span
  record_span-IsHonest self span h g =
      let pushed =
        All-append_one (λ s. is_coverage_gap s.state && self.complete ≡ false) self.spans span h
          g in
      elim (Bool-cases (is_match self.match_limit span)) [
        | inr other ↦ rw (IsHonest, other) pushed
        | inl matched ↦
            rw (IsHonest, matched)
              (stop_after-IsHonest self.match_limit
                (record self {
                  spans = self.spans ++ (span ∷ []);
                  matched_allocations = saturating_add self.matched_allocations 1;
                })
                pushed)
      ]

  -- What is counted once a span that matches has been pushed.
  stop_after-IsCounted :
      (limit : PoolMatchLimit) (self : PoolSnapshot Layout Diagnostics)
      → self.match_limit ≡ some limit
      → self.matched_allocations ≡ min (count_matches self.match_limit self.spans) u64_max
      → (match_limit_reached self ≡ true → leb limit.matches self.matched_allocations ≡ true)
      → IsCounted (stop_after (some limit) self)
  unfolding match_limit_reached
  stop_after-IsCounted limit self l counted old =
      elim (Bool-cases (leb limit.matches self.matched_allocations)) [
        | inl stop ↦
            rw (IsCounted, stop, l)
              (
                subst (λ x. self.matched_allocations ≡ min (count_matches x self.spans) u64_max) l
                    counted,
                sym stop,
                refl,
              )
        | inr more ↦
            let going : match_limit_reached self ≡ false =
              not_true _ (λ r. absurd (cc (old r, more))) in
            rw (IsCounted, more, l)
              (
                subst (λ x. self.matched_allocations ≡ min (count_matches x self.spans) u64_max) l
                    counted,
                going ∙ sym more,
                ap (λ x. x && self.complete) going,
              )
      ]
    where
      not_true : (b : Bool) → (b ≡ true → b ≡ false) → b ≡ false
      not_true true f = f refl
      not_true false f = refl

  matched-IsCounted :
      (limit : Option PoolMatchLimit) (self : PoolSnapshot Layout Diagnostics) (span : PoolSpan)
      → self.match_limit ≡ limit
      → IsCounted self
      → is_match limit span ≡ true
      → IsCounted (
          stop_after limit (record self {
            spans = self.spans ++ (span ∷ []);
            matched_allocations = saturating_add self.matched_allocations 1;
          }))
  unfolding match_limit_reached
  matched-IsCounted none self span l (counted, reached, whole) matched = absurd (cc)
  matched-IsCounted (some limit) self span l (counted, reached, whole) matched =
      stop_after-IsCounted limit
        (record self {
          spans = self.spans ++ (span ∷ []);
          matched_allocations = saturating_add self.matched_allocations 1;
        })
        l (one_more (count_matches self.match_limit self.spans) counted more)
        (λ r. still (sym (reached ∙ ap (λ x. are_enough x self.matched_allocations) l) ∙ r))
    where
      more :
          count_matches self.match_limit (self.spans ++ (span ∷ []))
          ≡ count_matches self.match_limit self.spans + 1
      more =
          count_matches-append self.match_limit self.spans span
          ∙ ap (λ b. count_matches self.match_limit self.spans + (if b then 1 else 0))
              (ap (λ x. is_match x span) l ∙ matched)

      one_more :
          {n : ℕ} (c : ℕ) {d : ℕ}
          → n ≡ min c u64_max
          → d ≡ c + 1
          → saturating_add n 1 ≡ min d u64_max
      one_more c e f = omega arith

      still :
          leb limit.matches self.matched_allocations ≡ true
          → leb limit.matches (saturating_add self.matched_allocations 1) ≡ true
      still h = enough limit.matches self.matched_allocations (omega (arith, counted)) h

  -- Recording a span keeps the count: the matches of the limit are counted, as far as a machine word
  -- goes, the walk is told to stop exactly when there are as many as the limit asks for, and then the
  -- snapshot does not say that it is complete.
  pub record_span-IsCounted :
      (self : PoolSnapshot Layout Diagnostics) (span : PoolSpan)
      → IsCounted self
      → IsCounted (record_span self span)
  unfolding record_span match_limit_reached
  record_span-IsCounted self span h = elim (Bool-cases (is_match self.match_limit span)) [
    | inl matched ↦ rw (matched) (matched-IsCounted self.match_limit self span refl h matched)
    | inr other ↦ rw (other) (
      h.0
          ∙ ap (λ n. min n u64_max)
              (sym
                (count_matches-append self.match_limit self.spans span ∙ rw other (omega arith))),
      h.1,
      h.2,
    )
  ]
