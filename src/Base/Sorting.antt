-- ===== src/Base/Sorting.antt =====
-- `sort_by_key`: a stable sort, by keys that are tuples of numbers, compared in lexicographic order.
use dbgscope.Base.{
  ℕ, ◌≡◌, refl, Bool, true, false, ◌&&◌, ◌||◌, ◌==◌, ltb, if◌then◌else◌, Bool-cases, List, [], ◌∷◌,
  All, arith, &&-eq-true, inl, inr, ap, ◌∙◌,
}

abbrev pub lex_leb : List ℕ → List ℕ → Bool
lex_leb [] ys = true
lex_leb (x ∷ xs) [] = false
lex_leb (x ∷ xs) (y ∷ ys) = ltb x y || x == y && lex_leb xs ys

pub lex_leb_refl : (xs : List ℕ) → lex_leb xs xs ≡ true
lex_leb_refl [] = refl
lex_leb_refl (x ∷ xs) = ground (arith, lex_leb_refl xs)

pub lex_leb_trans :
    (xs ys zs : List ℕ) → lex_leb xs ys ≡ true → lex_leb ys zs ≡ true → lex_leb xs zs ≡ true
lex_leb_trans [] ys zs h k = refl
lex_leb_trans (x ∷ xs) [] zs h k = absurd (cc)
lex_leb_trans (x ∷ xs) (y ∷ ys) [] h k = absurd (cc)
lex_leb_trans (x ∷ xs) (y ∷ ys) (z ∷ zs) h k = ground (arith, lex_leb_trans xs ys zs)

pub lex_leb_total : (xs ys : List ℕ) → lex_leb xs ys ≡ false → lex_leb ys xs ≡ true
lex_leb_total [] ys h = absurd (cc)
lex_leb_total (x ∷ xs) [] h = refl
lex_leb_total (x ∷ xs) (y ∷ ys) h = ground (arith, lex_leb_total xs ys)

module _ {ℓ} {A : Type ℓ} where
  abbrev pub filter : (A → Bool) → List A → List A
  filter p [] = []
  filter p (x ∷ xs) = let rest = filter p xs in if p x then x ∷ rest else rest

  module _ (key : A → List ℕ) where
    abbrev pub insert_by_key : A → List A → List A
    insert_by_key x [] = x ∷ []
    insert_by_key x (y ∷ ys) =
        let rest = insert_by_key x ys in if lex_leb (key x) (key y) then x ∷ y ∷ ys else y ∷ rest

    abbrev pub sort_by_key : List A → List A
    sort_by_key [] = []
    sort_by_key (x ∷ xs) = insert_by_key x (sort_by_key xs)

    -- The keys rise from each element to every later one.
    abbrev pub IsSorted : List A → Type 0
    IsSorted [] = Unit
    IsSorted (x ∷ xs) = All (λ y. lex_leb (key x) (key y) ≡ true) xs × IsSorted xs

    above_insert :
        (a x : A) (ys : List A)
        → lex_leb (key a) (key x) ≡ true
        → All (λ y. lex_leb (key a) (key y) ≡ true) ys
        → All (λ y. lex_leb (key a) (key y) ≡ true) (insert_by_key x ys)
    above_insert a x [] h all = (h, tt)
    above_insert a x (y ∷ ys) h all = elim (Bool-cases (lex_leb (key x) (key y))) [
      | inl e ↦ rw e (h, all)
      | inr e ↦ rw e (all.0, above_insert a x ys h all.1)
    ]

    above_trans :
        (a x : A) (ys : List A)
        → lex_leb (key a) (key x) ≡ true
        → All (λ y. lex_leb (key x) (key y) ≡ true) ys
        → All (λ y. lex_leb (key a) (key y) ≡ true) ys
    above_trans a x [] h all = tt
    above_trans a x (y ∷ ys) h all =
        (lex_leb_trans (key a) (key x) (key y) h all.0, above_trans a x ys h all.1)

    insert_by_key-IsSorted : (x : A) (ys : List A) → IsSorted ys → IsSorted (insert_by_key x ys)
    insert_by_key-IsSorted x [] s = (tt, tt)
    insert_by_key-IsSorted x (y ∷ ys) s = elim (Bool-cases (lex_leb (key x) (key y))) [
      | inl e ↦ rw e ((e, above_trans x y ys e s.0), s)
      | inr e ↦ rw e (
        above_insert y x ys (lex_leb_total (key x) (key y) e) s.0,
        insert_by_key-IsSorted x ys s.1,
      )
    ]

    pub sort_by_key-IsSorted : (xs : List A) → IsSorted (sort_by_key xs)
    sort_by_key-IsSorted [] = tt
    sort_by_key-IsSorted (x ∷ xs) =
        insert_by_key-IsSorted x (sort_by_key xs) (sort_by_key-IsSorted xs)

    -- The elements with one key.
    abbrev pub has_key : List ℕ → A → Bool
    has_key k x = lex_leb (key x) k && lex_leb k (key x)

    filter-insert_by_key :
        (k : List ℕ) (x : A) (ys : List A)
        → filter (has_key k) (insert_by_key x ys) ≡ filter (has_key k) (x ∷ ys)
    filter-insert_by_key k x [] = refl
    filter-insert_by_key k x (y ∷ ys) = elim (Bool-cases (lex_leb (key x) (key y))) [
      | inl e ↦ rw e
      | inr e ↦
          rw (e, filter-insert_by_key k x ys)
            (elim (Bool-cases (has_key k y)) [
              | inr ny ↦ elim (Bool-cases (has_key k x)) [
                | inl hx ↦ rw (ny, hx)
                | inr nx ↦ rw (ny, nx)
              ]
              | inl hy ↦ elim (Bool-cases (has_key k x)) [
                | inl hx ↦ absurd (
                    cc (
                      e,
                      lex_leb_trans (key x) k (key y) (&&-eq-true (lex_leb (key x) k) _ hx).0
                          (&&-eq-true (lex_leb (key y) k) _ hy).1,
                    ))
                | inr nx ↦ rw (hy, nx)
              ]
            ])
    ]

    -- The elements with one key keep their order, and none is lost or made up.
    pub filter-sort_by_key :
        (k : List ℕ) (xs : List A) → filter (has_key k) (sort_by_key xs) ≡ filter (has_key k) xs
    filter-sort_by_key k [] = refl
    filter-sort_by_key k (x ∷ xs) =
        filter-insert_by_key k x (sort_by_key xs)
        ∙ ap (λ rest. if has_key k x then x ∷ rest else rest) (filter-sort_by_key k xs)
