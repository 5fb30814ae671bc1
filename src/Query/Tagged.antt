-- ===== src/Query/Tagged.antt =====
-- What a tag query answers.
use dbgscope.Base.{
  ℕ, suc, ◌≡◌, ◌⊎◌, ◌↔◌, refl, ap, sym, ◌∙◌, Bool, true, false, not, Bool-cases, inl, inr, Option,
  none, some, List, [], ◌∷◌, ◌++◌, length, get_elem?,
}
use dbgscope.Base.Sorting.{filter}
use dbgscope.Pool.{PoolKind, PoolSpan, is_paged}
use dbgscope.Snapshot.Spans.{PoolSnapshot}
use dbgscope.Index.{build}
use dbgscope.Index.Postings.{positions, is_posted, build-postings}
use dbgscope.Query.{collect_tag, look_up, page_matches, PoolPageFilter}

get_elem?-middle :
    (front : List PoolSpan) (x : PoolSpan) (xs : List PoolSpan)
    → get_elem? (front ++ (x ∷ xs)) (length front) ≡ some x
get_elem?-middle [] x xs = refl
get_elem?-middle (y ∷ front) x xs = get_elem?-middle front x xs

append_cons :
    (front : List PoolSpan) (x : PoolSpan) (xs : List PoolSpan)
    → (front ++ (x ∷ [])) ++ xs ≡ front ++ (x ∷ xs)
append_cons [] x xs = refl
append_cons (y ∷ front) x xs = ap (λ ys. y ∷ ys) (append_cons front x xs)

length_snoc :
    (front : List PoolSpan) (x : PoolSpan) → length (front ++ (x ∷ [])) ≡ suc (length front)
length_snoc [] x = refl
length_snoc (y ∷ front) x = ap suc (length_snoc front x)

look_up-positions :
    (p : PoolSpan → Bool) (front xs : List PoolSpan)
    → look_up (front ++ xs) (positions p (length front) xs) ≡ filter p xs
look_up-positions p front [] = refl
look_up-positions p front (x ∷ xs) =
    let rest : look_up (front ++ (x ∷ xs)) (positions p (suc (length front)) xs) ≡ filter p xs =
      ap (λ spans. look_up spans (positions p (suc (length front)) xs))
        (sym (append_cons front x xs))
      ∙ ap (λ n. look_up ((front ++ (x ∷ [])) ++ xs) (positions p n xs)) (sym (length_snoc front x))
      ∙ look_up-positions p (front ++ (x ∷ [])) xs in
    elim (Bool-cases (p x)) [
      | inl passes ↦ rw (passes, get_elem?-middle front x xs) (ap (λ ys. x ∷ ys) rest)
      | inr fails ↦ rw fails rest
    ]

-- The side of the pool that a filter names, if it names one.
abbrev pub LiesOn : Option PoolPageFilter → PoolKind → Type 0
LiesOn none kind = Unit {0}
LiesOn (some PoolPageFilter.paged) kind =
    (kind ≡ PoolKind.paged)
    ⊎ (kind ≡ PoolKind.prototype_paged)
    ⊎ (kind ≡ PoolKind.special_paged)
    ⊎ (kind ≡ PoolKind.special_prototype_paged)
LiesOn (some PoolPageFilter.non_paged) kind =
    (kind ≡ PoolKind.non_paged_executable)
    ⊎ (kind ≡ PoolKind.non_paged_nx)
    ⊎ (kind ≡ PoolKind.special_non_paged)
    ⊎ (kind ≡ PoolKind.special_non_paged_nx)

paged_sound : (kind : PoolKind) → is_paged kind ≡ true → LiesOn (some PoolPageFilter.paged) kind
unfolding is_paged
paged_sound PoolKind.non_paged_executable h = absurd (cc)
paged_sound PoolKind.non_paged_nx h = absurd (cc)
paged_sound PoolKind.paged h = inl refl
paged_sound PoolKind.prototype_paged h = inr (inl refl)
paged_sound PoolKind.special_non_paged h = absurd (cc)
paged_sound PoolKind.special_non_paged_nx h = absurd (cc)
paged_sound PoolKind.special_paged h = inr (inr (inl refl))
paged_sound PoolKind.special_prototype_paged h = inr (inr (inr refl))

non_paged_sound :
    (kind : PoolKind) → is_paged kind ≡ false → LiesOn (some PoolPageFilter.non_paged) kind
unfolding is_paged
non_paged_sound PoolKind.non_paged_executable h = inl refl
non_paged_sound PoolKind.non_paged_nx h = inr (inl refl)
non_paged_sound PoolKind.paged h = absurd (cc)
non_paged_sound PoolKind.prototype_paged h = absurd (cc)
non_paged_sound PoolKind.special_non_paged h = inr (inr (inl refl))
non_paged_sound PoolKind.special_non_paged_nx h = inr (inr (inr refl))
non_paged_sound PoolKind.special_paged h = absurd (cc)
non_paged_sound PoolKind.special_prototype_paged h = absurd (cc)

paged_complete : (kind : PoolKind) → LiesOn (some PoolPageFilter.paged) kind → is_paged kind ≡ true
unfolding is_paged
paged_complete kind (inl e) = ap is_paged e
paged_complete kind (inr (inl e)) = ap is_paged e
paged_complete kind (inr (inr (inl e))) = ap is_paged e
paged_complete kind (inr (inr (inr e))) = ap is_paged e

non_paged_complete :
    (kind : PoolKind) → LiesOn (some PoolPageFilter.non_paged) kind → is_paged kind ≡ false
unfolding is_paged
non_paged_complete kind (inl e) = ap is_paged e
non_paged_complete kind (inr (inl e)) = ap is_paged e
non_paged_complete kind (inr (inr (inl e))) = ap is_paged e
non_paged_complete kind (inr (inr (inr e))) = ap is_paged e

not-eq-true : (b : Bool) → not b ≡ true → b ≡ false
not-eq-true true h = sym h
not-eq-true false h = refl

page_matches_iff :
    (page_filter : Option PoolPageFilter) (span : PoolSpan)
    → (page_matches page_filter span ≡ true) ↔ LiesOn page_filter span.pool_kind
page_matches_iff none span = (λ h. tt, λ h. refl)
page_matches_iff (some PoolPageFilter.paged) span =
    (paged_sound span.pool_kind, paged_complete span.pool_kind)
page_matches_iff (some PoolPageFilter.non_paged) span = (
  λ h. non_paged_sound span.pool_kind (not-eq-true (is_paged span.pool_kind) h),
  λ h. ap not (non_paged_complete span.pool_kind h),
)

-- A tag query over the index of a snapshot answers the spans of the index that are allocated, carry
-- the tag and match the page filter: all of them, each once, in the order of the index. A span matches
-- the filter when its pool is of one of the kinds on the side that the filter names, and every span
-- does where it names none.
pub collect_tag-build :
    {Layout Diagnostics : Type 0} (snapshot : PoolSnapshot Layout Diagnostics) (raw_tag : ℕ)
    (page_filter : Option PoolPageFilter)
    → (collect_tag (build snapshot) raw_tag page_filter
        ≡ filter (page_matches page_filter) (filter (is_posted raw_tag) (build snapshot).spans))
      × ((span : PoolSpan)
          → (page_matches page_filter span ≡ true) ↔ LiesOn page_filter span.pool_kind)
unfolding collect_tag
collect_tag-build snapshot raw_tag page_filter =
    let spans = (build snapshot).spans in
    (
      ap (λ found. filter (page_matches page_filter) (look_up spans found))
            ((build-postings snapshot).0 raw_tag)
          ∙ ap (filter (page_matches page_filter)) (look_up-positions (is_posted raw_tag) [] spans),
      page_matches_iff page_filter,
    )
