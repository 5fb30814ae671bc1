-- ===== src/Base/Effects.antt =====
-- A call that may change the world and may fail: Rust's `Result`, with the world passed along.
use dbgscope.Base.{Result, ok, err}

abbrev pub Effect : Type 0 → Type 0 → Type 0 → Type 0
Effect World E A = World → World × Result A E

module _ {World E : Type 0} where
  abbrev pub resume :
      {A B : Type 0} → (A → Effect World E B) → World × Result A E → World × Result B E
  resume f (w, ok a) = f a w
  resume f (w, err e) = (w, err e)

  -- `?`.
  infixl 5 ◌>>=◌
  abbrev pub ◌>>=◌ : {A B : Type 0} → Effect World E A → (A → Effect World E B) → Effect World E B
  ◌>>=◌ m f w = resume f (m w)

  abbrev pub answer : {A : Type 0} → Result A E → Effect World E A
  answer r w = (w, r)

module _ {World E : Type 0} where
  -- What is asked of a result, where there is one.
  abbrev pub Holds : {A : Type 0} → (A → Type 0) → World × Result A E → Type 0
  Holds P (w, ok a) = P a
  Holds P (w, err e) = Unit

  pub resume-Holds :
      {A B : Type 0} (P : A → Type 0) (Q : B → Type 0) (f : A → Effect World E B)
      (before : World × Result A E)
      → Holds P before
      → ((a : A) → P a → (w : World) → Holds Q (f a w))
      → Holds Q (resume f before)
  resume-Holds P Q f (w, ok a) h next = next a h w
  resume-Holds P Q f (w, err e) h next = tt

  -- A call of which nothing is asked.
  pub resume-any :
      {A B : Type 0} (Q : B → Type 0) (f : A → Effect World E B) (before : World × Result A E)
      → ((a : A) (w : World) → Holds Q (f a w))
      → Holds Q (resume f before)
  resume-any Q f (w, ok a) next = next a w
  resume-any Q f (w, err e) next = tt

  pub Holds-map :
      {A : Type 0} (P Q : A → Type 0) (after : World × Result A E)
      → ((a : A) → P a → Q a)
      → Holds P after
      → Holds Q after
  Holds-map P Q (w, ok a) f h = f a h
  Holds-map P Q (w, err e) f h = tt
