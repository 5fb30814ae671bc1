-- ===== src/Layout/Resolve/Cache/Hits.antt =====
-- What the cache answers.
use dbgscope.Base.{
  ℕ, ◌≡◌, refl, sym, ◌∙◌, subst, Bool-cases, inl, inr, Option, none, some, [], ◌∷◌, All, Result, ok,
  err,
}
use dbgscope.Base.Effects.{Holds}
use dbgscope.Base.Maps.{get, get-write_entry_self}
use dbgscope.Layout.{AllocatorSchema, LayoutKey, LayoutError, missing}
use dbgscope.Layout.Resolve.{Symbols, polled}
use dbgscope.Layout.Resolve.Complete.{
  IsKernelLayout, IsUserLayout, resolve-IsKernelLayout, resolve_user-IsUserLayout,
}
use dbgscope.Layout.Resolve.Cache.{
  LayoutTarget, kernel, user, CacheKey, LayoutCache, Answer, same_cache_key, insert_layout,
  probe_type, resolve_for, store, serve, probed, get_or_resolve,
}
use dbgscope.Layout.Resolve.Cache.Keys.{same_cache_key-IsSame}

-- A layout is the one that a key asks for.
abbrev pub IsLayout : CacheKey → AllocatorSchema → Type 0
IsLayout (kernel, key) schema = IsKernelLayout key schema
IsLayout (user, key) schema = IsUserLayout key schema

-- Every layout in the cache is the one that its key asks for.
abbrev pub IsSound : LayoutCache → Type 0
IsSound cache = All (λ entry. IsLayout entry.0 entry.1) cache

abbrev pub IsServed : CacheKey → Result AllocatorSchema LayoutError → Type 0
IsServed key (ok schema) = IsLayout key schema
IsServed key (err e) = Unit

get-IsLayout :
    (key : CacheKey) (cache : LayoutCache) (schema : AllocatorSchema)
    → IsSound cache
    → get same_cache_key key cache ≡ some schema
    → IsLayout key schema
get-IsLayout key [] schema sound h = absurd (cc)
get-IsLayout key ((other, held) ∷ cache) schema sound h =
    elim (Bool-cases (same_cache_key key other)) [
      | inl e ↦
          subst (λ k. IsLayout k schema) (sym (same_cache_key-IsSame.sound key other e))
            (subst (λ s. IsLayout other s) (some_of held (sym h ∙ rw e)) sound.0)
      | inr e ↦ get-IsLayout key cache schema sound.1 (subst (λ x. x ≡ some schema) (rw e) h)
    ]
  where
    some_of : (a : AllocatorSchema) → some schema ≡ some a → a ≡ schema
    some_of a e = cc

insert_layout-IsSound :
    (key : CacheKey) (schema : AllocatorSchema) (cache : LayoutCache)
    → IsLayout key schema
    → IsSound cache
    → IsSound (insert_layout key schema cache)
insert_layout-IsSound key schema [] h sound = (h, tt)
insert_layout-IsSound key schema ((other, held) ∷ cache) h sound =
    elim (Bool-cases (same_cache_key key other)) [
      | inl e ↦
          rw (IsSound, e)
            (subst (λ k. IsLayout k schema) (same_cache_key-IsSame.sound key other e) h, sound.1)
      | inr e ↦ rw (IsSound, e) (sound.0, insert_layout-IsSound key schema cache h sound.1)
    ]

module _ {World : Type 0} (symbols : Symbols World) where
  resolve_for-IsLayout :
      (key : CacheKey) (w : World) → Holds (IsLayout key) (resolve_for symbols key w)
  resolve_for-IsLayout (kernel, key) w = resolve-IsKernelLayout symbols key w
  resolve_for-IsLayout (user, key) w = resolve_user-IsUserLayout symbols key w

  abbrev Serves : CacheKey → Answer World → Type 0
  Serves key answer = IsServed key answer.2 × IsSound answer.0

  store-Serves :
      (key : CacheKey) (cache : LayoutCache) (resolved : World × Result AllocatorSchema LayoutError)
      → IsSound cache
      → Holds (IsLayout key) resolved
      → Serves key (store symbols key cache resolved)
  store-Serves key cache (w, ok schema) sound h =
      (h, insert_layout-IsSound key schema cache h sound)
  store-Serves key cache (w, err e) sound h = (tt, sound)

  serve-Serves :
      (key : CacheKey) (cache : LayoutCache) (w : World) (entry : Option AllocatorSchema)
      → IsSound cache
      → get same_cache_key key cache ≡ entry
      → Serves key (serve symbols key cache w entry)
  serve-Serves key cache w (some schema) sound e = (get-IsLayout key cache schema sound e, sound)
  serve-Serves key cache w none sound e =
      store-Serves key cache (resolve_for symbols key w) sound (resolve_for-IsLayout key w)

  probed-Serves :
      (key : CacheKey) (cache : LayoutCache) (answered : World × Result (Option ℕ) LayoutError)
      → IsSound cache
      → Serves key (probed symbols key cache answered)
  probed-Serves key cache (w, err e) sound = (tt, sound)
  probed-Serves key cache (w, ok none) sound = (tt, sound)
  probed-Serves key cache (w, ok (some id)) sound =
      serve-Serves key cache w (get same_cache_key key cache) sound refl

  -- From a cache in which every layout is the complete one of its target and key, a layout that is
  -- answered is the complete one of the target and the key that were asked for, be it cached or
  -- resolved, and the cache that is left is again such a cache.
  pub get_or_resolve-IsSound :
      (key : LayoutKey) (target : LayoutTarget) (cache : LayoutCache) (w : World)
      → IsSound cache
      → IsServed (target, key) (get_or_resolve symbols key target cache w).2
        × IsSound (get_or_resolve symbols key target cache w).0
  unfolding get_or_resolve
  get_or_resolve-IsSound key target cache w sound =
      probed-Serves (target, key) cache
        (polled symbols (symbols.type_id key.image.base (probe_type target)) w) sound

  stored-get :
      (key : CacheKey) (cache : LayoutCache) (answered : World × Result (Option ℕ) LayoutError)
      (schema : AllocatorSchema)
      → (probed symbols key cache answered).2 ≡ ok schema
      → get same_cache_key key (probed symbols key cache answered).0 ≡ some schema
  stored-get key cache (w, err e) schema h = absurd (cc)
  stored-get key cache (w, ok none) schema h = absurd (cc)
  stored-get key cache (w, ok (some id)) schema h = served (get same_cache_key key cache) refl h
    where
      stored :
          (resolved : World × Result AllocatorSchema LayoutError)
          → (store symbols key cache resolved).2 ≡ ok schema
          → get same_cache_key key (store symbols key cache resolved).0 ≡ some schema
      stored (w1, err e) k = absurd (cc)
      stored (w1, ok layout) k =
          get-write_entry_self same_cache_key same_cache_key-IsSame key (λ _. layout) cache ∙ (cc)

      served :
          (entry : Option AllocatorSchema)
          → get same_cache_key key cache ≡ entry
          → (serve symbols key cache w entry).2 ≡ ok schema
          → get same_cache_key key (serve symbols key cache w entry).0 ≡ some schema
      served (some layout) e k = e ∙ (cc)
      served none e k = stored (resolve_for symbols key w) k

-- After a layout has been answered, any engine that asks the cache for the same key and target, and
-- that finds the type that is probed, is answered the same layout, from the cache alone: the world is
-- the one that the probe left. An engine that does not find the type is told that it is missing, and
-- the cache stays as it is.
pub get_or_resolve-again :
    {World Other : Type 0} (symbols : Symbols World) (others : Symbols Other) (key : LayoutKey)
    (target : LayoutTarget) (cache : LayoutCache) (w : World) (v after : Other)
    (schema : AllocatorSchema) (found : Option ℕ)
    → (get_or_resolve symbols key target cache w).2 ≡ ok schema
    → polled others (others.type_id key.image.base (probe_type target)) v ≡ (after, ok found)
    → get_or_resolve others key target (get_or_resolve symbols key target cache w).0 v ≡ (
      (get_or_resolve symbols key target cache w).0,
      after,
      elim found [ none ↦ err (missing (probe_type target)) | some id ↦ ok schema ],
    )
unfolding get_or_resolve
get_or_resolve-again symbols others key target cache w v after schema none h probe = rw probe
get_or_resolve-again symbols others key target cache w v after schema (some id) h probe = rw (
  probe,
  stored-get symbols (target, key) cache
      (polled symbols (symbols.type_id key.image.base (probe_type target)) w) schema h,
)
