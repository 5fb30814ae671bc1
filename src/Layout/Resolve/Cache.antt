-- ===== src/Layout/Resolve/Cache.antt =====
-- src/pool/layout.rs: the cache of the layouts. The mutex has no part: each access takes it once.
mod Keys
pub mod Hits
use dbgscope.Base.{
  ℕ, ◌≡◌, Bool, true, false, ◌&&◌, Option, none, some, List, [], ◌∷◌, Result, ok, err,
}
use dbgscope.Base.Effects.{Effect}
use dbgscope.Base.Maps.{HashMap, get, write_entry}
use dbgscope.Layout.{AllocatorSchema, LayoutKey, LayoutError, missing, same_layout_key}
use dbgscope.Layout.Resolve.{Symbols, polled, resolve, resolve_user}
use Prim.Native.String.{String}

pub data LayoutTarget : Type 0 where
  kernel user : LayoutTarget

unfoldable pub probe_type : LayoutTarget → String
probe_type kernel = "_POOL_HEADER"
probe_type user = "_PEB"

abbrev pub same_target : LayoutTarget → LayoutTarget → Bool
same_target kernel kernel = true
same_target kernel user = false
same_target user kernel = false
same_target user user = true

abbrev pub CacheKey : Type 0
CacheKey = LayoutTarget × LayoutKey

abbrev pub same_cache_key : CacheKey → CacheKey → Bool
same_cache_key (target, key) (other_target, other_key) =
    same_target target other_target && same_layout_key key other_key

-- `entries`.
abbrev pub LayoutCache : Type 0
LayoutCache = HashMap CacheKey AllocatorSchema

abbrev pub insert_layout : CacheKey → AllocatorSchema → LayoutCache → LayoutCache
insert_layout key layout cache = write_entry same_cache_key key (λ _. layout) cache

-- The cache and the world that a call leaves, and its answer.
abbrev pub Answer : Type 0 → Type 0
Answer World = LayoutCache × World × Result AllocatorSchema LayoutError

module _ {World : Type 0} (symbols : Symbols World) where
  abbrev pub resolve_for : CacheKey → Effect World LayoutError AllocatorSchema
  resolve_for (kernel, key) = resolve symbols key
  resolve_for (user, key) = resolve_user symbols key

  abbrev pub store :
      CacheKey → LayoutCache → World × Result AllocatorSchema LayoutError → Answer World
  store key cache (w, err e) = (cache, w, err e)
  store key cache (w, ok layout) = (insert_layout key layout cache, w, ok layout)

  -- The entry of the cache, or a layout that is resolved.
  abbrev pub serve : CacheKey → LayoutCache → World → Option AllocatorSchema → Answer World
  serve key cache w (some layout) = (cache, w, ok layout)
  serve key cache w none = store key cache (resolve_for key w)

  -- Once the probe has been answered.
  abbrev pub probed : CacheKey → LayoutCache → World × Result (Option ℕ) LayoutError → Answer World
  probed key cache (w, err e) = (cache, w, err e)
  probed (target, key) cache (w, ok none) = (cache, w, err (missing (probe_type target)))
  probed key cache (w, ok (some id)) = serve key cache w (get same_cache_key key cache)

  unfoldable pub get_or_resolve : LayoutKey → LayoutTarget → LayoutCache → World → Answer World
  get_or_resolve key target cache w =
      probed (target, key) cache
        (polled symbols (symbols.type_id key.image.base (probe_type target)) w)

unfoldable pub invalidate : LayoutCache → LayoutCache
invalidate cache = []
