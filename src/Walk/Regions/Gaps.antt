-- ===== src/Walk/Regions/Gaps.antt =====
-- The spans over what is not decoded.
use dbgscope.Base.{
  ℕ, ◌+◌, ◌-◌, ◌≤◌, ◌<◌, ◌≡◌, refl, subst, arith, Bool, true, false, ◌||◌, ◌==◌, ltb, if◌then◌else◌,
  min, Bool-cases, inl, inr, Option, none, some, [],
}
use dbgscope.Base.Words.{IsU64, saturating_add}
use dbgscope.Pool.{PoolState, unreadable, uncommitted}
use dbgscope.Pool.Same.{is_allocated}
use dbgscope.Walk.Memory.{PoolMemory, CommitRun}
use dbgscope.Walk.Rounds.{Round, Keeps, iterate, iterate-returns}
use dbgscope.Walk.Regions.{
  PoolRegion, Walked, GapWalk, gap, close_gap, file_run, split_run, gap_round, unreadable_space,
}
use dbgscope.Walk.Regions.Tiles.{Added, Added-gap, ||-comm, and_true, append_nil}

module _ {World Layout : Type 0} (memory : PoolMemory World) (region : PoolRegion) (address : ℕ)
    (before : Walked Layout) where
  nothing-Added : (end : ℕ) → address ≡ end → Added address end before before false
  nothing-Added end e = record {
    spans = [];
    grown = append_nil before.spans;
    tiles = e;
    counts = refl;
    honest = and_true before.complete;
  }

  module _ (end : ℕ) where
    abbrev IsGapWalk : World × GapWalk Layout → Type 0
    IsGapWalk s = Added address s.1.cursor before s.1.snapshot s.1.missed × (s.1.cursor ≤ end)

    abbrev IsTiled : World × Walked Layout × Bool → Type 0
    IsTiled o = Added address end before o.1 o.2

    abbrev left : World × GapWalk Layout → ℕ
    left s = end - s.1.cursor

    abbrev KeepsGap : ℕ → Round (World × GapWalk Layout) (World × Walked Layout × Bool) → Type 0
    KeepsGap = Keeps IsGapWalk left IsTiled

    close_gap-Keeps :
        (w : World) (walk : GapWalk Layout)
        → IsGapWalk (w, walk)
        → walk.cursor < end
        → KeepsGap (end - walk.cursor) (close_gap memory region end walk w)
    close_gap-Keeps w walk (added, low) some_left =
        let size = end - walk.cursor in
        let filed = gap region walk.cursor size unreadable walk.snapshot in
        subst (λ e. Added address e before filed.0 (filed.1 || walk.missed))
          {x = walk.cursor + size} (omega arith)
          (subst (λ m. Added address (walk.cursor + size) before filed.0 m)
            (||-comm walk.missed filed.1)
            (Added-gap region address walk.cursor size unreadable before walk.snapshot walk.missed
              refl (omega arith) added))

    file_run-Keeps :
        (w : World) (walk : GapWalk Layout) (stop : ℕ) (state : PoolState)
        → IsGapWalk (w, walk)
        → is_allocated state ≡ false
        → walk.cursor < stop
        → stop ≤ end
        → KeepsGap (end - walk.cursor) (file_run memory region end walk w stop state)
    file_run-Keeps w walk stop state (added, low) idle forward within =
        let size = stop - walk.cursor in
        let filed = gap region walk.cursor size state walk.snapshot in
        (
          (
            subst (λ e. Added address e before filed.0 (walk.missed || filed.1))
                {x = walk.cursor + size} (omega arith)
                (Added-gap region address walk.cursor size state before walk.snapshot walk.missed
                  idle (omega arith) added),
            within,
          ),
          omega arith,
        )

    idle_state :
        (committed : Bool) → is_allocated (if committed then unreadable else uncommitted) ≡ false
    idle_state true = refl
    idle_state false = refl

    split_run-Keeps :
        (walk : GapWalk Layout) (answered : World × Option CommitRun)
        → IsGapWalk (answered.0, walk)
        → walk.cursor < end
        → KeepsGap (end - walk.cursor) (split_run memory region end walk answered)
    split_run-Keeps walk (w, none) h some_left = close_gap-Keeps w walk h some_left
    split_run-Keeps walk (w, some run) h some_left = elim (Bool-cases (ltb walk.cursor run.end)) [
      | inl forward ↦
          rw (Keeps, forward)
            (file_run-Keeps w walk (min run.end end)
              (if run.committed then unreadable else uncommitted) h (idle_state run.committed)
              (ground arith) (omega arith))
      | inr stuck ↦ rw (Keeps, stuck) (close_gap-Keeps w walk h some_left)
    ]

    gap_round-Keeps :
        (s : World × GapWalk Layout)
        → IsGapWalk s
        → KeepsGap (left s) (gap_round memory region end s)
    unfolding gap_round
    gap_round-Keeps (w, walk) h = elim (Bool-cases (ltb walk.cursor end)) [
      | inl some_left ↦
          rw (Keeps, some_left)
            (split_run-Keeps walk (memory.committed_run w walk.cursor) h (ground arith))
      | inr ended ↦
          rw (Keeps, ended)
            (subst (λ e. Added address e before walk.snapshot walk.missed) {x = walk.cursor}
              (at_end h.1 ended) h.0)
    ]
      where
        at_end : walk.cursor ≤ end → ltb walk.cursor end ≡ false → walk.cursor ≡ end
        at_end low e = ground arith

    gap_loop-returns :
        (fuel : ℕ) (w : World)
        → address ≤ end
        → end - address < fuel
        → (o : World × Walked Layout × Bool) × (iterate
              (gap_round memory region end)
              fuel
              (w, record { cursor = address; missed = false; snapshot = before })
            ≡ some o)
          × Added address end before o.1 o.2
    gap_loop-returns fuel w low enough =
        iterate-returns (gap_round memory region end) IsGapWalk left IsTiled gap_round-Keeps fuel
          (w, record { cursor = address; missed = false; snapshot = before })
          (nothing-Added address refl, low) enough

  -- Filing address space that was not decoded ends, whatever the memory manager answers, also where its
  -- runs do not advance. The spans that it adds follow on one another from the start to the end of the
  -- space, which stops at the end of a machine word; coverage was missed exactly when one of them says so,
  -- and then, and only then, the snapshot no longer says that it is complete. The start is an address of
  -- 64 bits.
  pub unreadable_space-Added :
      (size : ℕ) (w : World)
      → IsU64 address
      → (o : World × Walked Layout × Bool) × (unreadable_space memory region address size w before
          ≡ some o)
        × Added address (saturating_add address size) before o.1 o.2
  unfolding unreadable_space
  unreadable_space-Added size w word = elim (Bool-cases (size == 0)) [
    | inl nothing ↦
        rw nothing
          ((w, before, false), refl, nothing-Added (saturating_add address size) (ground arith))
    | inr some_size ↦
        rw some_size
          (gap_loop-returns (saturating_add address size) (size + 1) w (omega arith) (omega arith))
  ]
