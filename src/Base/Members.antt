-- ===== src/Base/Members.antt =====
-- Membership in a list of numbers, and lists that hold each number once.
use dbgscope.Base.{
  ℕ, ◌≡◌, refl, ap, arith, Bool, true, false, ◌==◌, ==_iff, ==_refl, Bool-cases, inl, inr, List, [],
  ◌∷◌, ◌++◌, any, All,
}

-- `HashSet::contains`.
abbrev pub contains : ℕ → List ℕ → Bool
contains a seen = any (λ b. a == b) seen

abbrev pub Distinct : List ℕ → Type 0
Distinct [] = Unit
Distinct (x ∷ xs) = (contains x xs ≡ false) × Distinct xs

pub contains_cons :
    (a b : ℕ) (seen : List ℕ) → contains a seen ≡ true → contains a (b ∷ seen) ≡ true
contains_cons a b seen h = elim (Bool-cases (a == b)) [ inl e ↦ rw e | inr e ↦ rw e h ]

pub contains_self : (a : ℕ) (seen : List ℕ) → contains a (a ∷ seen) ≡ true
contains_self a seen = rw (==_refl a)

pub contains-false :
    (a : ℕ) (xs seen : List ℕ)
    → All (λ x. contains x seen ≡ true) xs
    → contains a seen ≡ false
    → contains a xs ≡ false
contains-false a [] seen h e = refl
contains-false a (x ∷ xs) seen h e = elim (Bool-cases (a == x)) [
  | inl same ↦ absurd (cc (h.0, e, ap (λ y. contains y seen) ((==_iff a x).0 same)))
  | inr other ↦ rw other (contains-false a xs seen h.1 e)
]

pub All-map {ℓ κ μ} :
    {A : Type ℓ} (P : A → Type κ) (Q : A → Type μ) (xs : List A)
    → ((x : A) → P x → Q x)
    → All P xs
    → All Q xs
All-map P Q [] f h = tt
All-map P Q (x ∷ xs) f h = (f x h.0, All-map P Q xs f h.1)

pub All-append_one {ℓ κ} :
    {A : Type ℓ} (P : A → Type κ) (xs : List A) (a : A) → All P xs → P a → All P (xs ++ (a ∷ []))
All-append_one P [] a h p = (p, tt)
All-append_one P (x ∷ xs) a h p = (h.0, All-append_one P xs a h.1 p)

contains-append_one :
    (a : ℕ) (xs : List ℕ) (b : ℕ)
    → contains a xs ≡ false
    → (a == b) ≡ false
    → contains a (xs ++ (b ∷ [])) ≡ false
contains-append_one a [] b h e = rw e
contains-append_one a (x ∷ xs) b h e = elim (Bool-cases (a == x)) [
  | inl same ↦ absurd (cc (rw same at h))
  | inr other ↦ rw other (contains-append_one a xs b (cc (rw other at h)) e)
]

pub Distinct-append_one :
    (xs : List ℕ) (a : ℕ) → Distinct xs → contains a xs ≡ false → Distinct (xs ++ (a ∷ []))
Distinct-append_one [] a d h = (refl, tt)
Distinct-append_one (x ∷ xs) a d h = elim (Bool-cases (a == x)) [
  | inl same ↦ absurd (cc (rw same at h))
  | inr other ↦ (
    contains-append_one x xs a d.0 (ground arith),
    Distinct-append_one xs a d.1 (cc (rw other at h)),
  )
]
