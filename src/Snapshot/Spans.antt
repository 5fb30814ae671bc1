-- ===== src/Snapshot/Spans.antt =====
-- src/pool/snapshot.rs: the spans that a walk records, and the matches that it may stop after. What a
-- snapshot only carries, the layout's provenance and the diagnostics, is left to two parameters.
pub mod Matches
use dbgscope.Base.{
  ℕ, ◌+◌, ◌≡◌, Bool, true, false, not, ◌&&◌, ◌==◌, leb, if◌then◌else◌, Option, none, some, List, [],
  ◌∷◌, ◌++◌,
}
use dbgscope.Base.Words.{saturating_add}
use dbgscope.Pool.{PoolKind, PoolSpan, PoolState, is_paged}
use dbgscope.Pool.Same.{bool_discriminant, is_allocated}

-- `matches` is not zero. `paged` asks for paged or nonpaged pool only.
pub record PoolMatchLimit : Type 0 where
  pub raw_tag : ℕ  -- u32
  pub paged : Option Bool
  pub matches : ℕ

-- `is_none_or(|paged| kind.is_paged() == paged)`.
abbrev pub kind_agrees : PoolKind → Option Bool → Bool
kind_agrees kind none = true
kind_agrees kind (some paged) = bool_discriminant (is_paged kind) == bool_discriminant paged

unfoldable pub accepts : PoolMatchLimit → PoolSpan → Bool
accepts self span =
    is_allocated span.state
    && (span.raw_tag == self.raw_tag && kind_agrees span.pool_kind self.paged)

pub record WalkStalls : Type 0 where
  pub pages : ℕ
  pub skipped_bytes : ℕ
  pub recovered_bytes : ℕ

pub record PoolSnapshot (Layout Diagnostics : Type 0) : Type 0 where
  pub layout : Layout
  pub spans : List PoolSpan
  pub diagnostics : Diagnostics
  pub complete : Bool
  pub budget_expired : Bool
  pub stopped_after_matches : Option ℕ
  pub match_limit : Option PoolMatchLimit
  pub matched_allocations : ℕ
  pub stalls : WalkStalls
  pub refused_chunks : ℕ
  pub unplaced_bytes : ℕ

-- `is_some_and(|limit| limit.accepts(&span))`.
abbrev pub is_match : Option PoolMatchLimit → PoolSpan → Bool
is_match none span = false
is_match (some limit) span = accepts limit span

module _ {Layout Diagnostics : Type 0} where
  abbrev pub stop_after :
      Option PoolMatchLimit → PoolSnapshot Layout Diagnostics → PoolSnapshot Layout Diagnostics
  stop_after none self = self
  stop_after (some limit) self =
      if leb limit.matches self.matched_allocations
      then record self { complete = false; stopped_after_matches = some limit.matches }
      else self

  unfoldable pub record_span :
      PoolSnapshot Layout Diagnostics → PoolSpan → PoolSnapshot Layout Diagnostics
  record_span self span =
      let pushed = record self { spans = self.spans ++ (span ∷ []) } in
      if not (is_match self.match_limit span)
      then pushed
      else stop_after self.match_limit
          (record pushed { matched_allocations = saturating_add self.matched_allocations 1 })

  unfoldable pub match_limit_reached : PoolSnapshot Layout Diagnostics → Bool
  match_limit_reached self = elim self.stopped_after_matches [ none ↦ false | some n ↦ true ]
