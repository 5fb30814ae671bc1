-- ===== src/Query/Touching.antt =====
-- What a query for an address answers.
use dbgscope.Base.{
  ℕ, suc, ◌≡◌, refl, ap, sym, subst, ◌∙◌, some_inj, inl, inr, Bool, true, Bool-cases, Option, none,
  some, >>=-eq-some, List, [], ◌∷◌, get_elem?,
}
use dbgscope.Pool.{PoolSpan, contains_address}
use dbgscope.Index.{PoolIndex, successor, same_boundary}
use dbgscope.Index.Neighbours.{then_some-eq, successor-same_boundary}
use dbgscope.Query.{PoolNeighbourhood, neighbourhood_at, position_of, touching}
use mathlib.Core.Option

map-some :
    (f : ℕ → ℕ) (o : Option ℕ) {b : ℕ}
    → Option.map f o ≡ some b
    → (a : ℕ) × (o ≡ some a) × (f a ≡ b)
map-some f none h = absurd (cc)
map-some f (some a) h = (a, refl, some_inj h)

position_of-passes {ℓ} :
    {A : Type ℓ} (p : A → Bool) (xs : List A) (i : ℕ) {x : A}
    → position_of p xs ≡ some i
    → get_elem? xs i ≡ some x
    → p x ≡ true
position_of-passes p [] i h e = absurd (cc)
position_of-passes p (x ∷ xs) i {x = y} h e = elim (Bool-cases (p x)) [
  | inl passes ↦
      let at_front : i ≡ 0 = sym (some_inj (cc (rw passes at h))) in
      subst (λ z. p z ≡ true) (some_inj (sym (ap (get_elem? (x ∷ xs)) at_front) ∙ e)) passes
  | inr fails ↦
      let (j, later, is) = map-some suc (position_of p xs) (cc (rw fails at h)) in
      position_of-passes p xs j later (ap (get_elem? (x ∷ xs)) is ∙ e)
]

module _ {Layout Diagnostics : Type 0} (index : PoolIndex Layout Diagnostics) where
  -- The chunk that a query finds holds the address, and the next chunk that it reports lies on the
  -- same side of every boundary and, other than in VS, starts where the chunk ends.
  pub neighbourhood_at-next :
      (address : ℕ) (found : PoolNeighbourhood) (span : PoolSpan)
      → neighbourhood_at index address ≡ some found
      → found.next ≡ some span
      → (contains_address found.chunk address ≡ true)
        × (same_boundary found.chunk span ≡ true)
        × (touching found.chunk span ≡ true)
  unfolding neighbourhood_at
  neighbourhood_at-next address found span h n =
      let (position, at, rest) =
        >>=-eq-some (position_of (λ span. contains_address span address) index.spans) _ h in
      let (chunk, c, made) = >>=-eq-some (get_elem? index.spans position) _ rest in
      let whole = some_inj made in
      let is_chunk : chunk ≡ found.chunk = ap (λ r. r.chunk) whole in
      let (next, s, after) =
        >>=-eq-some (successor index position) _ (ap (λ r. r.next) whole ∙ n) in
      let (other, o, touch) = >>=-eq-some (get_elem? index.spans next) _ after in
      let (touches, is) = then_some-eq (touching chunk other) touch in
      let borders = successor-same_boundary index position next s c o in
      (
        subst (λ z. contains_address z address ≡ true) is_chunk
            (position_of-passes _ index.spans position at c),
        subst (λ z. same_boundary found.chunk z ≡ true) is
            (subst (λ z. same_boundary z other ≡ true) is_chunk borders),
        subst (λ z. touching found.chunk z ≡ true) is
            (subst (λ z. touching z other ≡ true) is_chunk touches),
      )
