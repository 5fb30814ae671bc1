-- ===== src/Layout/Resolve/Cache/Keys.antt =====
-- The equality of the cache's keys.
use dbgscope.Base.{◌≡◌, refl, true, ◌&&◌, &&-eq-true, ==_iff, ==_refl, ◌==◌}
use dbgscope.Base.Maps.{IsSame}
use dbgscope.Layout.{KernelImage, LayoutKey, same_image, same_layout_key}
use dbgscope.Layout.Resolve.Cache.{
  LayoutTarget, kernel, user, CacheKey, same_target, same_cache_key,
}

same_target_sound : (a b : LayoutTarget) → same_target a b ≡ true → a ≡ b
same_target_sound kernel kernel h = refl
same_target_sound kernel user h = absurd (cc)
same_target_sound user kernel h = absurd (cc)
same_target_sound user user h = refl

same_target_self : (a : LayoutTarget) → same_target a a ≡ true
same_target_self kernel = refl
same_target_self user = refl

same_image_sound : (a b : KernelImage) → same_image a b ≡ true → a ≡ b
same_image_sound a b h =
    let (h1, checksum) =
      &&-eq-true (a.base == b.base && a.size == b.size && a.timestamp == b.timestamp) _ h in
    let (h2, timestamp) = &&-eq-true (a.base == b.base && a.size == b.size) _ h1 in
    let (base, size) = &&-eq-true (a.base == b.base) _ h2 in
    λ i. record {
      base = (==_iff _ _).0 base i;
      size = (==_iff _ _).0 size i;
      timestamp = (==_iff _ _).0 timestamp i;
      checksum = (==_iff _ _).0 checksum i;
    }

same_layout_key_sound : (a b : LayoutKey) → same_layout_key a b ≡ true → a ≡ b
same_layout_key_sound a b h =
    let (image, session) = &&-eq-true (same_image a.image b.image) _ h in
    λ i. record {
      image = same_image_sound a.image b.image image i;
      session = (==_iff _ _).0 session i;
    }

same_layout_key_self : (a : LayoutKey) → same_layout_key a a ≡ true
same_layout_key_self a = rw (
  same_layout_key,
  same_image,
  ==_refl a.image.base,
  ==_refl a.image.size,
  ==_refl a.image.timestamp,
  ==_refl a.image.checksum,
  ==_refl a.session,
)

same_cache_key_sound : (a b : CacheKey) → same_cache_key a b ≡ true → a ≡ b
same_cache_key_sound (target, key) (other_target, other_key) h =
    let (targets, keys) = &&-eq-true (same_target target other_target) _ h in
    λ i.
      (same_target_sound target other_target targets i, same_layout_key_sound key other_key keys i)

pub same_cache_key-IsSame : IsSame same_cache_key
same_cache_key-IsSame = record {
  sound = same_cache_key_sound;
  complete = λ a. rw (same_cache_key, same_target_self a.0, same_layout_key_self a.1);
}
