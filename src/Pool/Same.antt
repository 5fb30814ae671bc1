-- ===== src/Pool/Same.antt =====
-- The derived `PartialEq` of the types of src/pool.rs.
use dbgscope.Base.{ℕ, ◌&&◌, ◌==◌, Bool, true, false, Option, none, some}
use dbgscope.Pool.{PoolKind, PoolBackend, PoolState, HeapIdentity}

abbrev pub kind_discriminant : PoolKind → ℕ
kind_discriminant PoolKind.non_paged_executable = 0
kind_discriminant PoolKind.non_paged_nx = 1
kind_discriminant PoolKind.paged = 2
kind_discriminant PoolKind.prototype_paged = 3
kind_discriminant PoolKind.special_non_paged = 4
kind_discriminant PoolKind.special_non_paged_nx = 5
kind_discriminant PoolKind.special_paged = 6
kind_discriminant PoolKind.special_prototype_paged = 7

abbrev pub backend_discriminant : PoolBackend → ℕ
backend_discriminant PoolBackend.lfh = 0
backend_discriminant PoolBackend.vs = 1
backend_discriminant PoolBackend.segment = 2
backend_discriminant PoolBackend.large = 3

abbrev pub bool_discriminant : Bool → ℕ
bool_discriminant false = 0
bool_discriminant true = 1

abbrev pub same_kind : PoolKind → PoolKind → Bool
same_kind a b = kind_discriminant a == kind_discriminant b

abbrev pub same_backend : PoolBackend → PoolBackend → Bool
same_backend a b = backend_discriminant a == backend_discriminant b

abbrev pub same_heap : HeapIdentity → HeapIdentity → Bool
same_heap a b =
    a.pool_state == b.pool_state
    && a.heap == b.heap
    && bool_discriminant a.special == bool_discriminant b.special

abbrev pub same_subsegment : Option ℕ → Option ℕ → Bool
same_subsegment none none = true
same_subsegment none (some b) = false
same_subsegment (some a) none = false
same_subsegment (some a) (some b) = a == b

-- `state == PoolState::Allocated`, and the same for `ReusableFree`.
abbrev pub is_allocated : PoolState → Bool
is_allocated PoolState.allocated = true
is_allocated _ = false

abbrev pub is_reusable_free : PoolState → Bool
is_reusable_free PoolState.reusable_free = true
is_reusable_free _ = false
