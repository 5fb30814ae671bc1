-- ===== src/Base/Maps.antt =====
-- `HashMap` as an association list, where each key stands once. Rust leaves the order of iteration
-- open; here it is that of the first insertions.
use dbgscope.Base.{
  ◌≡◌, Bool, true, false, if◌then◌else◌, Bool-cases, Option, none, some, List, [], ◌∷◌, inl, inr,
  ap,
}

abbrev pub HashMap {ℓ κ} : Type ℓ → Type κ → Type (ℓ ⊔ κ)
HashMap K V = List (K × V)

-- What a key's `Eq` promises: that it is the equality of values.
pub record IsSame {ℓ} {K : Type ℓ} (same : K → K → Bool) : Type ℓ where
  pub sound : (a b : K) → same a b ≡ true → a ≡ b
  pub complete : (a : K) → same a a ≡ true

module _ {ℓ κ} {K : Type ℓ} {V : Type κ} (same : K → K → Bool) where
  -- `get`.
  abbrev pub get : K → HashMap K V → Option V
  get k [] = none
  get k ((j, v) ∷ m) = if same k j then some v else get k m

  -- A write through `entry`, from what the map has for the key.
  abbrev pub write_entry : K → (Option V → V) → HashMap K V → HashMap K V
  write_entry k f [] = (k, f none) ∷ []
  write_entry k f ((j, v) ∷ m) =
      let rest = write_entry k f m in if same k j then (j, f (some v)) ∷ m else (j, v) ∷ rest

  module _ (is : IsSame same) where
    pub get-write_entry_self :
        (k : K) (f : Option V → V) (m : HashMap K V)
        → get k (write_entry k f m) ≡ some (f (get k m))
    get-write_entry_self k f [] = rw (is.complete k)
    get-write_entry_self k f ((j, v) ∷ m) = elim (Bool-cases (same k j)) [
      | inl e ↦ rw (e, e)
      | inr e ↦ rw (e, e) (get-write_entry_self k f m)
    ]

    pub get-write_entry_other :
        (i k : K) (f : Option V → V) (m : HashMap K V)
        → same i k ≡ false
        → get i (write_entry k f m) ≡ get i m
    get-write_entry_other i k f [] ne = rw ne
    get-write_entry_other i k f ((j, v) ∷ m) ne = elim (Bool-cases (same k j)) [
      | inl e ↦ elim (Bool-cases (same i j)) [
        | inl e' ↦ absurd (cc (ne, ap (same i) (is.sound k j e), e'))
        | inr e' ↦ rw (e, e')
      ]
      | inr e ↦ elim (Bool-cases (same i j)) [
        | inl e' ↦ rw (e, e')
        | inr e' ↦ rw (e, e') (get-write_entry_other i k f m ne)
      ]
    ]
