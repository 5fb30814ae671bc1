-- ===== src/Index/Cache.antt =====
-- src/pool/index.rs: the cache of one index, and when it walks again.
use dbgscope.Base.{
  ◌≡◌, refl, ap, sym, subst, ◌∙◌, Bool, true, false, not, ◌&&◌, if◌then◌else◌, Bool-cases,
  &&-eq-true, inl, inr, Option, none, some, Result, ok, err,
}
use dbgscope.Snapshot.Spans.{PoolSnapshot}
use dbgscope.Index.{PoolIndex, build}

pub record CachedSnapshot (Layout Diagnostics Key : Type 0) : Type 0 where
  pub key : Key
  pub index : PoolIndex Layout Diagnostics

abbrev is_none {ℓ} : {A : Type ℓ} → Option A → Bool
is_none none = true
is_none (some a) = false

not-true : (b : Bool) → not b ≡ true → b ≡ false
not-true true h = absurd (cc)
not-true false h = refl

is_none-eq {ℓ} : {A : Type ℓ} (o : Option A) → is_none o ≡ true → o ≡ none
is_none-eq none h = refl
is_none-eq (some a) h = absurd (cc)

-- Over the equality of keys, and over the walk that the caller passes, which acts on a world and
-- may fail.
module _ {Layout Diagnostics Key World E : Type 0} (same_key : Key → Key → Bool)
    (walk : World → World × Result (PoolSnapshot Layout Diagnostics) E) where
  -- `Some(cached)` with the key that is asked for.
  abbrev hit :
      Option (CachedSnapshot Layout Diagnostics Key) → Key → Option (PoolIndex Layout Diagnostics)
  hit none key = none
  hit (some cached) key = if same_key cached.key key then some cached.index else none

  abbrev cacheable : PoolSnapshot Layout Diagnostics → Bool
  cacheable snapshot = not snapshot.budget_expired && is_none snapshot.stopped_after_matches

  abbrev keep :
      Key → PoolSnapshot Layout Diagnostics → Option (CachedSnapshot Layout Diagnostics Key)
  keep key snapshot =
      if cacheable snapshot then some (record { key = key; index = build snapshot }) else none

  -- What is kept, and answered, once the walk has returned; a failed walk leaves the cache alone.
  abbrev settle :
      Option (CachedSnapshot Layout Diagnostics Key)
      → Key
      → Result (PoolSnapshot Layout Diagnostics) E
      → Option (CachedSnapshot Layout Diagnostics Key) × Result (PoolIndex Layout Diagnostics) E
  settle entry key (err e) = (entry, err e)
  settle entry key (ok snapshot) = (keep key snapshot, ok (build snapshot))

  -- The part after the hit: walk, index, and keep or drop.
  abbrev rebuild :
      Option (CachedSnapshot Layout Diagnostics Key)
      → Key
      → World
      → Option (CachedSnapshot Layout Diagnostics Key)
        × World
        × Result (PoolIndex Layout Diagnostics) E
  rebuild entry key world =
      let (after, walked) = walk world in
      let (held, answer) = settle entry key walked in (held, after, answer)

  -- The entry that the cache holds afterwards, the world, and the answer.
  unfoldable pub get_or_refresh :
      Option (CachedSnapshot Layout Diagnostics Key)
      → Key
      → Bool
      → World
      → Option (CachedSnapshot Layout Diagnostics Key)
        × World
        × Result (PoolIndex Layout Diagnostics) E
  get_or_refresh entry key refresh world =
      let kept = if refresh then none else entry in
      let walked = rebuild kept key world in
      elim (hit kept key) [ none ↦ walked | some index ↦ (kept, world, ok index) ]

  -- The entry has no part in the answer of a walk.
  settle_answer :
      (entry other : Option (CachedSnapshot Layout Diagnostics Key)) (key : Key)
      (walked : Result (PoolSnapshot Layout Diagnostics) E)
      → (settle entry key walked).1 ≡ (settle other key walked).1
  settle_answer entry other key (err e) = refl
  settle_answer entry other key (ok snapshot) = refl

  module _ (key : Key) (world : World) where
    -- An index that is cached under another key has no part in what a query does or answers: the
    -- world and the answer are those of the query over an empty cache.
    pub get_or_refresh-stale :
        (cached : CachedSnapshot Layout Diagnostics Key) (refresh : Bool)
        → same_key cached.key key ≡ false
        → (get_or_refresh (some cached) key refresh world).1
            ≡ (get_or_refresh none key false world).1
          × (get_or_refresh (some cached) key refresh world).2
            ≡ (get_or_refresh none key false world).2
    unfolding get_or_refresh
    get_or_refresh-stale cached true other = (refl, refl)
    get_or_refresh-stale cached false other =
        rw (get_or_refresh, other) (refl, settle_answer (some cached) none key (walk world).1)

  module _ (key : Key) (world after : World) where
    -- A forced refresh whose walk fails leaves the cache empty, whatever it held, and answers the
    -- error of the walk.
    pub get_or_refresh-failed :
        (entry : Option (CachedSnapshot Layout Diagnostics Key)) (e : E)
        → walk world ≡ (after, err e)
        → get_or_refresh entry key true world ≡ (none, after, err e)
    unfolding get_or_refresh
    get_or_refresh-failed entry e failed = rw (get_or_refresh, failed)

    -- Where a key equals itself, and a walk ends neither at its budget nor at its match limit:
    -- after a forced refresh with that walk, a later query with the same key answers the index
    -- of that walk, keeps the cache as it is and leaves the world alone.
    pub get_or_refresh-again :
        (entry : Option (CachedSnapshot Layout Diagnostics Key)) (later : World)
        (snapshot : PoolSnapshot Layout Diagnostics)
        → same_key key key ≡ true
        → walk world ≡ (after, ok snapshot)
        → snapshot.budget_expired ≡ false
        → snapshot.stopped_after_matches ≡ none
        → get_or_refresh (get_or_refresh entry key true world).0 key false later
          ≡ ((get_or_refresh entry key true world).0, later, ok (build snapshot))
    unfolding get_or_refresh
    get_or_refresh-again entry later snapshot same walked in_time no_limit =
        let whole : cacheable snapshot ≡ true = rw (in_time, no_limit) in
        let kept : (get_or_refresh entry key true world).0
            ≡ some (record { key = key; index = build snapshot }) =
          ap (λ r. (settle none key r.1).0) walked
          ∙ ap (λ b. if b then some (record { key = key; index = build snapshot }) else none)
              whole in
        subst (λ held. get_or_refresh held key false later ≡ (held, later, ok (build snapshot)))
          (sym kept) (rw (get_or_refresh, same))

  -- Whether what a cache holds is for some snapshot of the walk that was not cut short.
  abbrev pub IsWhole : Option (CachedSnapshot Layout Diagnostics Key) → Type 0
  IsWhole none = Unit
  IsWhole (some cached) =
      (cached.index.budget_expired ≡ false) × (cached.index.stopped_after_matches ≡ none)

  cacheable_whole :
      (snapshot : PoolSnapshot Layout Diagnostics)
      → cacheable snapshot ≡ true
      → (snapshot.budget_expired ≡ false) × (snapshot.stopped_after_matches ≡ none)
  cacheable_whole snapshot h =
      let (in_time, no_limit) = &&-eq-true (not snapshot.budget_expired) _ h in
      (not-true _ in_time, is_none-eq _ no_limit)

  keep-IsWhole :
      (key : Key) (snapshot : PoolSnapshot Layout Diagnostics) → IsWhole (keep key snapshot)
  unfolding build
  keep-IsWhole key snapshot = elim (Bool-cases (cacheable snapshot)) [
    | inl whole ↦ rw (IsWhole, whole) (cacheable_whole snapshot whole)
    | inr short ↦ rw (IsWhole, short) tt
  ]

  settle-IsWhole :
      (entry : Option (CachedSnapshot Layout Diagnostics Key)) (key : Key)
      (walked : Result (PoolSnapshot Layout Diagnostics) E)
      → IsWhole entry
      → IsWhole (settle entry key walked).0
  settle-IsWhole entry key (err e) whole = whole
  settle-IsWhole entry key (ok snapshot) whole = keep-IsWhole key snapshot

  module _ (key : Key) (world : World) where
    -- A cache that holds no index of a walk that was cut short, by its budget or by its match limit,
    -- holds none after any query, refreshed or not, whatever the walk returns.
    pub get_or_refresh-IsWhole :
        (entry : Option (CachedSnapshot Layout Diagnostics Key)) (refresh : Bool)
        → IsWhole entry
        → IsWhole (get_or_refresh entry key refresh world).0
    unfolding get_or_refresh
    get_or_refresh-IsWhole none true whole = settle-IsWhole none key (walk world).1 tt
    get_or_refresh-IsWhole (some cached) true whole = settle-IsWhole none key (walk world).1 tt
    get_or_refresh-IsWhole none false whole = settle-IsWhole none key (walk world).1 tt
    get_or_refresh-IsWhole (some cached) false whole = elim (Bool-cases (same_key cached.key key)) [
      | inl same ↦ rw (get_or_refresh, same) whole
      | inr other ↦
          rw (get_or_refresh, other) (settle-IsWhole (some cached) key (walk world).1 whole)
    ]
