-- ===== src/Pool.antt =====
-- src/pool.rs: what a span of the kernel pool is.
pub mod Same
use dbgscope.Base.{ℕ, ◌&&◌, Bool, true, false, ltb, leb, Option, List}
use dbgscope.Base.Words.{saturating_add}

pub data PoolKind : Type 0 where
  non_paged_executable non_paged_nx paged prototype_paged : PoolKind
  special_non_paged special_non_paged_nx special_paged special_prototype_paged : PoolKind

unfoldable pub is_paged : PoolKind → Bool
is_paged paged = true
is_paged prototype_paged = true
is_paged special_paged = true
is_paged special_prototype_paged = true
is_paged _ = false

pub data PoolBackend : Type 0 where
  lfh vs segment large : PoolBackend

pub data PoolState : Type 0 where
  allocated reusable_free cached_free unreadable uncommitted : PoolState

unfoldable pub is_chunk : PoolState → Bool
is_chunk allocated = true
is_chunk reusable_free = true
is_chunk cached_free = true
is_chunk unreadable = false
is_chunk uncommitted = false

unfoldable pub is_coverage_gap : PoolState → Bool
is_coverage_gap unreadable = true
is_coverage_gap allocated = false
is_coverage_gap reusable_free = false
is_coverage_gap cached_free = false
is_coverage_gap uncommitted = false

pub record HeapIdentity : Type 0 where
  pub pool_state : ℕ
  pub heap : ℕ
  pub special : Bool

-- `display_tag` is a text of bytes.
pub record PoolSpan : Type 0 where
  pub header_address : ℕ
  pub usable_address : ℕ
  pub size : ℕ
  pub requested_size : Option ℕ
  pub raw_tag : ℕ
  pub display_tag : List ℕ
  pub pool_kind : PoolKind
  pub numa_node : ℕ
  pub heap : HeapIdentity
  pub subsegment : Option ℕ
  pub backend : PoolBackend
  pub state : PoolState
  pub size_class : ℕ

abbrev pub end : PoolSpan → ℕ
end span = saturating_add span.usable_address span.size

abbrev pub contains_address : PoolSpan → ℕ → Bool
contains_address span address = leb span.header_address address && ltb address (end span)
