-- ===== src/Walk/Discovered.antt =====
-- src/pool/snapshot.rs: the walk through all the regions that were discovered.
pub mod Whole
use dbgscope.Base.{
  ℕ, ◌+◌, Bool, true, false, if◌then◌else◌, Option, none, some, ◌>>=◌, List, [], ◌∷◌, length,
  Result, ok, err,
}
use dbgscope.Index.{sorted_spans}
use dbgscope.Pool.{PoolBackend, lfh, vs, segment, large}
use dbgscope.Snapshot.Spans.{match_limit_reached}
use dbgscope.Walk.Complaints.{out_of_time}
use dbgscope.Walk.Memory.{SnapshotError, budget_expired, PoolMemory}
use dbgscope.Walk.Regions.{PoolRegion, Walked, complain, not_complete, walk_large}
use dbgscope.Walk.Region.{Ended, walk_region}

-- What the loop over the regions leaves: the snapshot, how many regions were walked through, and whether
-- the time ran out, or the error that ends the walk.
pub record Tour (World Layout : Type 0) : Type 0 where
  pub world : World
  pub snapshot : Walked Layout
  pub walked : ℕ
  pub outcome : Result Bool SnapshotError

-- `expired` is said, and what was missed.
abbrev pub say_expired : {Layout : Type 0} → Option ℕ → ℕ → ℕ → Bool → Walked Layout → Walked Layout
say_expired budget walked discovered false snapshot = snapshot
say_expired budget walked discovered true snapshot =
    complain (out_of_time budget walked discovered)
      (record snapshot { complete = false; budget_expired = true })

abbrev pub sort_walked : {Layout : Type 0} → Walked Layout → Walked Layout
sort_walked snapshot = record snapshot { spans = sorted_spans snapshot.spans }

module _ {World Layout : Type 0} (memory : PoolMemory World) (traversal_limit : ℕ) where
  -- A large allocation is not read.
  abbrev pub visit_region :
      PoolRegion → PoolBackend → World → Walked Layout → Option (Ended World Layout)
  visit_region region large w snapshot = some (w, walk_large region snapshot, ok tt)
  visit_region region backend w snapshot = walk_region memory traversal_limit region w snapshot

  -- The loop goes on with the next region, or ends.
  abbrev pub after_region :
      ℕ
      → Bool
      → (World → Walked Layout → Option (Tour World Layout))
      → Option (Ended World Layout)
      → Option (Tour World Layout)
  after_region walked expired next none = none
  after_region walked expired next (some (w, snapshot, err budget_expired)) =
      some (record { world = w; snapshot = snapshot; walked = walked; outcome = ok true })
  after_region walked expired next (some (w, snapshot, err e)) =
      some (record { world = w; snapshot = snapshot; walked = walked; outcome = err e })
  after_region walked expired next (some (w, snapshot, ok _)) =
      if match_limit_reached snapshot
      then some (record { world = w; snapshot = snapshot; walked = walked; outcome = ok expired })
      else next w snapshot

  unfoldable pub tour :
      List PoolRegion → ℕ → Bool → World → Walked Layout → Option (Tour World Layout)
  tour [] walked expired w snapshot =
      some (record { world = w; snapshot = snapshot; walked = walked; outcome = ok expired })
  tour (region ∷ regions) walked expired w snapshot =
      after_region walked expired (tour regions (walked + 1) expired)
        (visit_region region region.backend w snapshot)

  abbrev pub end_tour :
      Option ℕ → ℕ → World → Walked Layout → ℕ → Result Bool SnapshotError → Ended World Layout
  end_tour budget discovered w snapshot walked (err e) = (w, snapshot, err e)
  end_tour budget discovered w snapshot walked (ok expired) =
      (w, sort_walked (say_expired budget walked discovered expired snapshot), ok tt)

  unfoldable pub walk_discovered_regions :
      List PoolRegion → Option ℕ → Bool → World → Walked Layout → Option (Ended World Layout)
  walk_discovered_regions regions budget expired w snapshot =
      tour regions 0 expired w snapshot >>= λ t.
      some (end_tour budget (length regions) t.world t.snapshot t.walked t.outcome)
