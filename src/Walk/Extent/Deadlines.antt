-- ===== src/Walk/Extent/Deadlines.antt =====
-- The two deadlines of a budget.
use dbgscope.Base.{
  ℕ, ◌+◌, ◌*◌, ◌/◌, ◌≤◌, ◌<◌, ◌≡◌, refl, arith, true, leb, Bool-cases, inl, inr, Option, none, some,
}
use dbgscope.Walk.Extent.{budget_deadlines}

-- Both deadlines are missing, or discovery has the floor of a third of the budget, twice, and the walk has
-- the whole of it, and both end before the last instant.
abbrev pub AreShared : ℕ → ℕ → ℕ → Option ℕ × Option ℕ → Type 0
AreShared last start full (some discovery, some whole) =
    (discovery ≡ start + full / 3 * 2)
    × (whole ≡ start + full)
    × (discovery ≤ whole)
    × (whole ≤ last)
AreShared last start full (none, none) = last < start + full
AreShared last start full (some discovery, none) = ⊥
AreShared last start full (none, some whole) = ⊥

third_twice : (n : ℕ) → n / 3 * 2 ≤ n
third_twice n = omega arith

-- Of a budget, discovery gets two thirds, counted in whole thirds of its nanoseconds, and the walk gets all
-- of it, so that discovery's deadline is never the later one. Where the platform cannot represent the
-- walk's deadline, there is none for either.
pub budget_deadlines-AreShared :
    (last start full : ℕ) → AreShared last start full (budget_deadlines last start (some full))
unfolding budget_deadlines
budget_deadlines-AreShared last start full = elim (Bool-cases (leb (start + full) last)) [
  | inl fits ↦
      let sooner : leb (start + full / 3 * 2) last ≡ true = within (third_twice full) fits in
      rw (AreShared, fits, sooner) (refl, refl, omega (arith, third_twice full), ground arith)
  | inr over ↦ rw (AreShared, over) (ground arith)
]
  where
    within :
        {share : ℕ}
        → share ≤ full
        → leb (start + full) last ≡ true
        → leb (start + share) last ≡ true
    within small e = ground arith
