-- ===== src/Index/Neighbours.antt =====
-- The neighbours of a span.
use dbgscope.Base.{
  ℕ, zero, suc, ◌≤◌, ◌≡◌, refl, ap, sym, subst, some_inj, ◌∙◌, arith, Bool, true, false, Option,
  none, some, then_some, ◌>>=◌, >>=-eq-some, get_elem?, ◌↔◌,
}
use dbgscope.Base.Words.{checked_add, checked_sub, u64_max}
use dbgscope.Pool.{PoolSpan}
use dbgscope.Index.{PoolIndex, predecessor, successor, same_boundary}

-- Whether two spans, where they exist, lie on one side of every boundary.
abbrev bordering : Option PoolSpan → Option PoolSpan → Bool
bordering none right = false
bordering (some left) none = false
bordering (some left) (some right) = same_boundary left right

then_bordering :
    (l r : Option PoolSpan) (k : ℕ)
    → (l >>= λ left. r >>= λ right. then_some (same_boundary left right) k)
      ≡ then_some (bordering l r) k
then_bordering none r k = refl
then_bordering (some left) none k = refl
then_bordering (some left) (some right) k = refl

pub then_some-eq {ℓ} :
    {A : Type ℓ} (b : Bool) {x y : A} → then_some b x ≡ some y → (b ≡ true) × (x ≡ y)
then_some-eq true h = (refl, cc)
then_some-eq false h = absurd (cc)

module _ {Layout Diagnostics : Type 0} (self : PoolIndex Layout Diagnostics) where
  abbrev borders : ℕ → ℕ → Bool
  borders i j = bordering (get_elem? self.spans i) (get_elem? self.spans j)

  predecessor-suc : (i : ℕ) → predecessor self (suc i) ≡ then_some (borders i (suc i)) i
  unfolding predecessor
  predecessor-suc i =
      let e : checked_sub (suc i) 1 ≡ some i = ground arith in rw e (then_bordering _ _ i)

  predecessor-zero : predecessor self 0 ≡ none
  unfolding predecessor
  predecessor-zero = refl

  successor-suc :
      (i : ℕ) → suc i ≤ u64_max → successor self i ≡ then_some (borders i (suc i)) (suc i)
  unfolding successor
  successor-suc i h =
      let e : checked_add i 1 ≡ some (suc i) = ground arith in rw e (then_bordering _ _ (suc i))

  pub successor_next : (i j : ℕ) → successor self i ≡ some j → (j ≡ suc i) × (j ≤ u64_max)
  unfolding successor
  successor_next i j h =
      let (next, added, rest) = >>=-eq-some (checked_add i 1) _ h in
      let (left, l, rest_left) = >>=-eq-some (get_elem? self.spans i) _ rest in
      let (right, r, done) = >>=-eq-some (get_elem? self.spans next) _ rest_left in
      let is = (then_some-eq (same_boundary left right) done).1 in ground arith

  pub successor-same_boundary :
      (i j : ℕ) {left right : PoolSpan}
      → successor self i ≡ some j
      → get_elem? self.spans i ≡ some left
      → get_elem? self.spans j ≡ some right
      → same_boundary left right ≡ true
  unfolding successor
  successor-same_boundary i j {left} {right} h l r =
      let (next, added, rest) = >>=-eq-some (checked_add i 1) _ h in
      let (first, l', rest_left) = >>=-eq-some (get_elem? self.spans i) _ rest in
      let (second, r', done) = >>=-eq-some (get_elem? self.spans next) _ rest_left in
      let (borders_them, is) = then_some-eq (same_boundary first second) done in
      let e : first ≡ left = some_inj (sym l' ∙ l) in
      let e' : second ≡ right = some_inj (sym r' ∙ ap (get_elem? self.spans) is ∙ r) in
      subst (λ z. same_boundary left z ≡ true) e'
        (subst (λ z. same_boundary z second ≡ true) e borders_them)

  pub predecessor_previous : (i j : ℕ) → predecessor self i ≡ some j → i ≡ suc j
  predecessor_previous zero j h = absurd (cc (h, predecessor-zero))
  predecessor_previous (suc i) j h =
      ap suc (then_some-eq (borders i (suc i)) (sym (predecessor-suc i) ∙ h)).1

  -- The two neighbours are each other's: at positions below 2 ^ 64, a span's successor is
  -- another exactly when the other's predecessor is the span.
  pub successor-predecessor :
      (i j : ℕ) → j ≤ u64_max → (successor self i ≡ some j) ↔ (predecessor self j ≡ some i)
  successor-predecessor i zero h = (
    λ s. absurd (omega (arith, (successor_next i 0 s).0)),
    λ p. absurd (cc (p, predecessor-zero)),
  )
  successor-predecessor i (suc j) h = (
    λ s.
        let e : i ≡ j = omega (arith, (successor_next i (suc j) s).0) in
        let at_j : successor self j ≡ some (suc j) =
          subst (λ k. successor self k ≡ some (suc j)) e s in
        let border = (then_some-eq (borders j (suc j)) (sym (successor-suc j h) ∙ at_j)).0 in
        predecessor-suc j ∙ ap (λ b. then_some b j) border ∙ ap some (sym e),
    λ p.
        let (border, e) = then_some-eq (borders j (suc j)) (sym (predecessor-suc j) ∙ p) in
        ap (successor self) (sym e) ∙ successor-suc j h ∙ ap (λ b. then_some b (suc j)) border,
  )
