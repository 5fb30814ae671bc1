-- ===== src/Walk/Rounds.antt =====
-- A loop as rounds on fuel, and when it returns.
use dbgscope.Base.{ℕ, zero, suc, ◌<◌, ◌≡◌, refl, arith, Option, none, some}

-- One round of a loop goes on or ends it.
pub data Round (State Outcome : Type 0) : Type 0 where
  again : State → Round State Outcome
  done : Outcome → Round State Outcome

module _ {State Outcome : Type 0} where
  abbrev pub follow : (State → Option Outcome) → Round State Outcome → Option Outcome
  follow loop (again s) = loop s
  follow loop (done o) = some o

  module _ (round : State → Round State Outcome) where
    -- None is fuel that has run out.
    unfoldable pub iterate : ℕ → State → Option Outcome
    iterate zero s = none
    iterate (suc fuel) s = follow (iterate fuel) (round s)

  -- A round that keeps an invariant, leaves less work to do, and ends in a wanted outcome.
  abbrev pub Keeps :
      (State → Type 0) → (State → ℕ) → (Outcome → Type 0) → ℕ → Round State Outcome → Type 0
  Keeps Inv work Post before (again s) = Inv s × (work s < before)
  Keeps Inv work Post before (done o) = Post o

  module _ (round : State → Round State Outcome) (Inv : State → Type 0) (work : State → ℕ)
      (Post : Outcome → Type 0)
      (keeps : (s : State) → Inv s → Keeps Inv work Post (work s) (round s)) where
    follow-returns :
        (loop : State → Option Outcome) (before : ℕ) (r : Round State Outcome)
        → ((s : State) → Inv s → work s < before → (o : Outcome) × (loop s ≡ some o) × Post o)
        → Keeps Inv work Post before r
        → (o : Outcome) × (follow loop r ≡ some o) × Post o
    follow-returns loop before (again s) h (inv, less) = h s inv less
    follow-returns loop before (done o) h post = (o, refl, post)

    -- A loop whose rounds keep an invariant and lessen the work returns, on more fuel than there is
    -- work, with a wanted outcome.
    pub iterate-returns :
        (fuel : ℕ) (s : State)
        → Inv s
        → work s < fuel
        → (o : Outcome) × (iterate round fuel s ≡ some o) × Post o
    unfolding iterate
    iterate-returns zero s inv less = absurd (omega arith)
    iterate-returns (suc fuel) s inv less =
        follow-returns (iterate round fuel) (work s) (round s)
          (λ next h l. iterate-returns fuel next h (omega arith)) (keeps s inv)
