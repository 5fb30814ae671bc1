-- ===== src/Index/Boundaries.antt =====
-- What it means that two spans lie on one side of every boundary.
use dbgscope.Base.{
  ℕ, ◌≡◌, refl, sym, ap, ◌∙◌, ◌⊎◌, inl, inr, Bool, true, false, ◌&&◌, &&-eq-true, ◌==◌, ==_iff,
  ==_refl, Option, none, some, [], ◌∷◌, get_elem?,
}
use mathlib.Core.Option
use dbgscope.Pool.{PoolKind, PoolBackend, PoolState, HeapIdentity, PoolSpan, is_chunk}
use dbgscope.Pool.Same.{
  kind_discriminant, backend_discriminant, bool_discriminant, same_heap, same_subsegment, same_kind,
  same_backend, is_allocated,
}
use dbgscope.Index.{same_boundary}

-- The state of a chunk, not of space that was not read or is not there.
abbrev pub IsChunkState : PoolState → Type 0
IsChunkState state =
    (state ≡ PoolState.allocated)
    ⊎ (state ≡ PoolState.reusable_free)
    ⊎ (state ≡ PoolState.cached_free)

-- Two chunks of one pool, node, heap, backend and subsegment.
abbrev pub Bordered : PoolSpan → PoolSpan → Type 0
Bordered left right =
    (left.pool_kind ≡ right.pool_kind)
    × (left.numa_node ≡ right.numa_node)
    × (left.heap ≡ right.heap)
    × (left.backend ≡ right.backend)
    × (left.subsegment ≡ right.subsegment)
    × IsChunkState left.state
    × IsChunkState right.state

pub Bordered-sym : (left right : PoolSpan) → Bordered left right → Bordered right left
Bordered-sym left right (kind, node, heap, backend, subsegment, l, r) =
    (sym kind, sym node, sym heap, sym backend, sym subsegment, r, l)

abbrev kind_of : ℕ → PoolKind
kind_of n =
    Option.get_or
      (get_elem?
        (PoolKind.non_paged_executable ∷ PoolKind.non_paged_nx ∷ PoolKind.paged
          ∷ PoolKind.prototype_paged ∷ PoolKind.special_non_paged ∷ PoolKind.special_non_paged_nx
          ∷ PoolKind.special_paged ∷ [])
        n)
      PoolKind.special_prototype_paged

kind_of-kind_discriminant : (k : PoolKind) → kind_of (kind_discriminant k) ≡ k
kind_of-kind_discriminant PoolKind.non_paged_executable = refl
kind_of-kind_discriminant PoolKind.non_paged_nx = refl
kind_of-kind_discriminant PoolKind.paged = refl
kind_of-kind_discriminant PoolKind.prototype_paged = refl
kind_of-kind_discriminant PoolKind.special_non_paged = refl
kind_of-kind_discriminant PoolKind.special_non_paged_nx = refl
kind_of-kind_discriminant PoolKind.special_paged = refl
kind_of-kind_discriminant PoolKind.special_prototype_paged = refl

same_kind_sound : (a b : PoolKind) → same_kind a b ≡ true → a ≡ b
same_kind_sound a b h =
    sym (kind_of-kind_discriminant a) ∙ ap kind_of ((==_iff _ _).0 h) ∙ kind_of-kind_discriminant b

abbrev backend_of : ℕ → PoolBackend
backend_of n =
    Option.get_or (get_elem? (PoolBackend.lfh ∷ PoolBackend.vs ∷ PoolBackend.segment ∷ []) n)
      PoolBackend.large

backend_of-backend_discriminant : (b : PoolBackend) → backend_of (backend_discriminant b) ≡ b
backend_of-backend_discriminant PoolBackend.lfh = refl
backend_of-backend_discriminant PoolBackend.vs = refl
backend_of-backend_discriminant PoolBackend.segment = refl
backend_of-backend_discriminant PoolBackend.large = refl

same_backend_sound : (a b : PoolBackend) → same_backend a b ≡ true → a ≡ b
same_backend_sound a b h =
    sym (backend_of-backend_discriminant a)
    ∙ ap backend_of ((==_iff _ _).0 h)
    ∙ backend_of-backend_discriminant b

bool_discriminant_inj : (a b : Bool) → bool_discriminant a ≡ bool_discriminant b → a ≡ b
bool_discriminant_inj false false h = refl
bool_discriminant_inj false true h = absurd (cc)
bool_discriminant_inj true false h = absurd (cc)
bool_discriminant_inj true true h = refl

same_heap_sound : (a b : HeapIdentity) → same_heap a b ≡ true → a ≡ b
same_heap_sound a b h =
    let (addresses, special) = &&-eq-true (a.pool_state == b.pool_state && a.heap == b.heap) _ h in
    let (pool_state, heap) = &&-eq-true (a.pool_state == b.pool_state) _ addresses in
    λ i. record {
      pool_state = (==_iff _ _).0 pool_state i;
      heap = (==_iff _ _).0 heap i;
      special = bool_discriminant_inj a.special b.special ((==_iff _ _).0 special) i;
    }

same_heap_self : (a : HeapIdentity) → same_heap a a ≡ true
same_heap_self a =
    rw (same_heap, ==_refl a.pool_state, ==_refl a.heap, ==_refl (bool_discriminant a.special))

same_subsegment_sound : (a b : Option ℕ) → same_subsegment a b ≡ true → a ≡ b
same_subsegment_sound none none h = refl
same_subsegment_sound none (some b) h = absurd (cc)
same_subsegment_sound (some a) none h = absurd (cc)
same_subsegment_sound (some a) (some b) h = ap some ((==_iff _ _).0 h)

same_subsegment_self : (a : Option ℕ) → same_subsegment a a ≡ true
same_subsegment_self none = refl
same_subsegment_self (some a) = ==_refl a

is_chunk_sound : (s : PoolState) → is_chunk s ≡ true → IsChunkState s
unfolding is_chunk
is_chunk_sound PoolState.allocated h = inl refl
is_chunk_sound PoolState.reusable_free h = inr (inl refl)
is_chunk_sound PoolState.cached_free h = inr (inr refl)
is_chunk_sound PoolState.unreadable h = absurd (cc)
is_chunk_sound PoolState.uncommitted h = absurd (cc)

is_chunk_complete : (s : PoolState) → IsChunkState s → is_chunk s ≡ true
unfolding is_chunk
is_chunk_complete s (inl e) = ap is_chunk e
is_chunk_complete s (inr (inl e)) = ap is_chunk e
is_chunk_complete s (inr (inr e)) = ap is_chunk e

pub same_boundary_sound :
    (left right : PoolSpan) → same_boundary left right ≡ true → Bordered left right
unfolding same_boundary
same_boundary_sound left right h =
    let (h6, r) = &&-eq-true _ (is_chunk right.state) h in
    let (h5, l) = &&-eq-true _ (is_chunk left.state) h6 in
    let (h4, subsegment) = &&-eq-true _ (same_subsegment left.subsegment right.subsegment) h5 in
    let (h3, backend) = &&-eq-true _ (same_backend left.backend right.backend) h4 in
    let (h2, heap) = &&-eq-true _ (same_heap left.heap right.heap) h3 in
    let (kind, node) = &&-eq-true _ (left.numa_node == right.numa_node) h2 in
    (
      same_kind_sound left.pool_kind right.pool_kind kind,
      (==_iff _ _).0 node,
      same_heap_sound left.heap right.heap heap,
      same_backend_sound left.backend right.backend backend,
      same_subsegment_sound left.subsegment right.subsegment subsegment,
      is_chunk_sound left.state l,
      is_chunk_sound right.state r,
    )

pub same_boundary_complete :
    (left right : PoolSpan) → Bordered left right → same_boundary left right ≡ true
unfolding same_boundary
same_boundary_complete left right (kind, node, heap, backend, subsegment, l, r) = rw (
  sym kind,
  sym node,
  sym heap,
  sym backend,
  sym subsegment,
  ==_refl (kind_discriminant left.pool_kind),
  ==_refl left.numa_node,
  same_heap_self left.heap,
  ==_refl (backend_discriminant left.backend),
  same_subsegment_self left.subsegment,
  is_chunk_complete left.state l,
  is_chunk_complete right.state r,
)

-- `is_allocated` is the derived comparison with `Allocated`.
pub is_allocated_sound : (s : PoolState) → is_allocated s ≡ true → s ≡ PoolState.allocated
is_allocated_sound PoolState.allocated h = refl
is_allocated_sound PoolState.reusable_free h = absurd (cc)
is_allocated_sound PoolState.cached_free h = absurd (cc)
is_allocated_sound PoolState.unreadable h = absurd (cc)
is_allocated_sound PoolState.uncommitted h = absurd (cc)
