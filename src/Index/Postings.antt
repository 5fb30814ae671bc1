-- ===== src/Index/Postings.antt =====
-- The postings of an index: where the allocations of a tag, and the spans of a row, lie.
use dbgscope.Base.{
  ℕ, suc, ◌≡◌, refl, ap, sym, ◌∙◌, Bool, ◌&&◌, ◌==◌, ==_iff, ==_refl, Bool-cases, inl, inr,
  if◌then◌else◌, List, [], ◌∷◌, ◌++◌, map,
}
use dbgscope.Base.Maps.{
  HashMap, get, write_entry, IsSame, get-write_entry_self, get-write_entry_other,
}
use dbgscope.Pool.{PoolSpan}
use dbgscope.Pool.Same.{is_allocated}
use dbgscope.Snapshot.Spans.{PoolSnapshot}
use dbgscope.Index.{build, Filled, fill, fill_span, push_index, row_of, nothing_filled}
use mathlib.Core.Option

-- The positions of the elements that pass a test, from a first position on.
abbrev pub positions {ℓ} : {A : Type ℓ} → (A → Bool) → ℕ → List A → List ℕ
positions p i [] = []
positions p i (x ∷ xs) = let rest = positions p (suc i) xs in if p x then i ∷ rest else rest

-- What a map has for a key, none being nothing.
abbrev pub members : ℕ → HashMap ℕ (List ℕ) → List ℕ
members tag postings = Option.get_or (get ◌==◌ tag postings) []

append_nil {ℓ} : {A : Type ℓ} (xs : List A) → xs ++ [] ≡ xs
append_nil [] = refl
append_nil (x ∷ xs) = ap (λ ys. x ∷ ys) (append_nil xs)

append_one {ℓ} :
    {A : Type ℓ} (xs : List A) (i : A) (ys : List A) → xs ++ (i ∷ ys) ≡ (xs ++ (i ∷ [])) ++ ys
append_one [] i ys = refl
append_one (x ∷ xs) i ys = ap (λ zs. x ∷ zs) (append_one xs i ys)

number-IsSame : IsSame ◌==◌
number-IsSame = record { sound = λ a b. (==_iff a b).0; complete = ==_refl }

-- Whether a span is an allocation with a tag.
abbrev pub is_posted : ℕ → PoolSpan → Bool
is_posted tag span = is_allocated span.state && tag == span.raw_tag

members-write_entry :
    (tag raw index : ℕ) (m : HashMap ℕ (List ℕ))
    → tag ≡ raw
    → members tag (write_entry ◌==◌ raw (push_index index) m) ≡ members tag m ++ (index ∷ [])
members-write_entry tag raw index m e =
    ap (λ t. members t (write_entry ◌==◌ raw (push_index index) m)) e
    ∙ ap (λ o. Option.get_or o [])
        (get-write_entry_self ◌==◌ number-IsSame raw (push_index index) m)
    ∙ ap (λ t. members t m ++ (index ∷ [])) (sym e)

members-fill_span :
    (tag index : ℕ) (span : PoolSpan) (filled : Filled)
    → members tag (fill_span index span filled).postings ≡ (
        if is_posted tag span
        then members tag filled.postings ++ (index ∷ [])
        else members tag filled.postings)
unfolding fill_span
members-fill_span tag index span filled = elim (Bool-cases (is_allocated span.state)) [
  | inr free ↦ rw free
  | inl allocated ↦ elim (Bool-cases (tag == span.raw_tag)) [
    | inl same ↦
        rw (allocated, same)
          (members-write_entry tag span.raw_tag index filled.postings ((==_iff _ _).0 same))
    | inr other ↦ rw (
      allocated,
      other,
      get-write_entry_other ◌==◌ number-IsSame tag span.raw_tag (push_index index) filled.postings
          other,
    )
  ]
]

members-fill :
    (tag index : ℕ) (spans : List PoolSpan) (filled : Filled)
    → members tag (fill index spans filled).postings
      ≡ members tag filled.postings ++ positions (is_posted tag) index spans
unfolding fill
members-fill tag index [] filled = sym (append_nil _)
members-fill tag index (span ∷ spans) filled =
    members-fill tag (suc index) spans (fill_span index span filled)
    ∙ ap (λ found. found ++ positions (is_posted tag) (suc index) spans)
        (members-fill_span tag index span filled)
    ∙ elim (Bool-cases (is_posted tag span)) [
      | inl posted ↦ rw posted (sym (append_one (members tag filled.postings) index _))
      | inr other ↦ rw other
    ]

rows-fill :
    (index : ℕ) (spans : List PoolSpan) (filled : Filled)
    → (fill index spans filled).span_rows ≡ filled.span_rows ++ map row_of spans
unfolding fill fill_span
rows-fill index [] filled = sym (append_nil _)
rows-fill index (span ∷ spans) filled =
    rows-fill (suc index) spans (fill_span index span filled)
    ∙ sym (append_one filled.span_rows (row_of span) _)

-- The postings of a tag in an index are the positions of the allocated spans with the tag, in
-- rising order, and a tag of no allocation has none; the rows are those of the spans, in order.
pub build-postings :
    {Layout Diagnostics : Type 0} (snapshot : PoolSnapshot Layout Diagnostics)
    → ((tag : ℕ)
        → members tag (build snapshot).postings
          ≡ positions (is_posted tag) 0 (build snapshot).spans)
      × ((build snapshot).span_rows ≡ map row_of (build snapshot).spans)
unfolding build
build-postings snapshot = (λ tag. members-fill tag 0 _ nothing_filled, rows-fill 0 _ nothing_filled)
