-- ===== src/Walk/Nodes/Candidates.antt =====
-- The places where the header of a cached chunk may lie.
use dbgscope.Base.{
  ℕ, ◌-◌, ◌≡◌, refl, ap, ◌∙◌, bit_and, Bool, true, false, ◌&&◌, ◌||◌, ◌==◌, ==_iff, leb, Bool-cases,
  inl, inr, some, List,
}
use dbgscope.Base.Members.{contains}
use dbgscope.Base.Words.{saturating_add}
use dbgscope.Decode.Header.{page_size}
use dbgscope.Walk.Nodes.{insert_number, insert_header, insert_cached_chunk_candidates}

contains-insert_number :
    (a n : ℕ) (numbers : List ℕ)
    → contains a (insert_number n numbers) ≡ a == n || contains a numbers
contains-insert_number a n numbers = elim (Bool-cases (contains n numbers)) [
  | inr new ↦ rw (new)
  | inl old ↦ rw (old) (elim (Bool-cases (a == n)) [
    | inl same ↦ rw (same) (ap (λ x. contains x numbers) ((==_iff a n).0 same) ∙ old)
    | inr other ↦ rw (other)
  ])
]

-- The header of an entry lies the overhead of its headers before it, and where that is the end of a
-- page, also sixteen bytes before.
abbrev pub is_candidate : ℕ → ℕ → ℕ → ℕ → Bool
is_candidate a entry pool_header_size vs_header_size =
    let overhead = saturating_add pool_header_size vs_header_size in
    let header = entry - overhead in
    a == entry
    || leb overhead entry
      && (a == header
          || bit_and header (page_size - 1) == page_size - pool_header_size && a == header - 16)

||-swap : (x y z : Bool) → x || (y || z) ≡ (y || x) || z
||-swap true true z = refl
||-swap true false z = refl
||-swap false true z = refl
||-swap false false z = refl

||-assoc : (x y z : Bool) → x || (y || z) ≡ (x || y) || z
||-assoc true y z = refl
||-assoc false y z = refl

module _ (a pool_header_size : ℕ) where
  is_header : ℕ → Bool
  is_header header =
      a == header
      || bit_and header (page_size - 1) == page_size - pool_header_size && a == header - 16

  contains-insert_header :
      (cached : List ℕ) (header : ℕ)
      → contains a (insert_header pool_header_size cached (some header))
        ≡ is_header header || contains a cached
  unfolding is_header
  contains-insert_header cached header =
      elim (Bool-cases (bit_and header (page_size - 1) == page_size - pool_header_size)) [
        | inl moved ↦
            rw (insert_header, moved)
              (contains-insert_number a (header - 16) (insert_number header cached)
                ∙ ap (λ x. a == header - 16 || x) (contains-insert_number a header cached)
                ∙ ||-swap (a == header - 16) (a == header) (contains a cached))
        | inr stays ↦
            rw (insert_header, stays)
              (contains-insert_number a header cached
                ∙ ap (λ x. x || contains a cached) (or_false (a == header)))
      ]
    where
      or_false : (x : Bool) → x ≡ x || false
      or_false true = refl
      or_false false = refl

  -- Inserting the candidates of an entry adds to the set the entry, the place that lies the overhead of
  -- its headers before it, and where that place is the end of a page the one sixteen bytes before, and
  -- nothing else; the two places are left out where the overhead is more than the entry's address.
  pub contains-insert_cached_chunk_candidates :
      (cached : List ℕ) (entry vs_header_size : ℕ)
      → contains a (insert_cached_chunk_candidates cached entry pool_header_size vs_header_size)
        ≡ is_candidate a entry pool_header_size vs_header_size || contains a cached
  unfolding insert_cached_chunk_candidates is_header
  contains-insert_cached_chunk_candidates cached entry vs_header_size =
      let overhead = saturating_add pool_header_size vs_header_size in
      elim (Bool-cases (leb overhead entry)) [
        | inl room ↦
            rw (is_candidate, room)
              (contains-insert_header (insert_number entry cached) (entry - overhead)
                ∙ ap (λ x. is_header (entry - overhead) || x)
                    (contains-insert_number a entry cached)
                ∙ ||-swap (is_header (entry - overhead)) (a == entry) (contains a cached))
        | inr short ↦
            rw (is_candidate, short)
              (contains-insert_number a entry cached
                ∙ ||-assoc (a == entry) false (contains a cached))
      ]
