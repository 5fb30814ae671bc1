-- ===== src/Walk/Extent.antt =====
-- src/pool/snapshot.rs: the reading of one committed extent in chunks, and the deadlines of a walk.
pub mod Whole
pub mod Sizes
pub mod Deadlines
use dbgscope.Base.{
  ℕ, ◌+◌, ◌-◌, ◌*◌, ◌/◌, ◌≡◌, Bool, not, ◌==◌, ltb, leb, if◌then◌else◌, min, Option, none, some,
  ◌>>=◌, List, [], ◌++◌, length, Result, ok, err,
}
use dbgscope.Walk.Memory.{SnapshotError, invalid_data, PoolMemory, check_budget}
use dbgscope.Walk.Rounds.{Round, again, done, iterate}
use mathlib.Core.Option

-- `EXTENT_READ_CHUNK`.
abbrev pub extent_read_chunk : ℕ
extent_read_chunk = 256 * 1024

abbrev pub Read : Type 0 → Type 0
Read World = World × Result (List ℕ) SnapshotError

module _ {World : Type 0} (memory : PoolMemory World) (base size : ℕ) where
  -- A chunk that is short fails the extent.
  abbrev pub add_chunk : List ℕ → ℕ → Read World → Round (World × List ℕ) (Read World)
  add_chunk bytes wanted (w, err e) = done (w, err e)
  add_chunk bytes wanted (w, ok chunk) =
      if not (length chunk == wanted) then done (w, err invalid_data) else again (w, bytes ++ chunk)

  abbrev pub read_chunk :
      List ℕ → World × Result (Unit {0}) SnapshotError → Round (World × List ℕ) (Read World)
  read_chunk bytes (w, err e) = done (w, err e)
  read_chunk bytes (w, ok _) =
      let wanted = min extent_read_chunk (size - length bytes) in
      add_chunk bytes wanted (memory.read_exact (base + length bytes) wanted w)

  unfoldable pub extent_round : World × List ℕ → Round (World × List ℕ) (Read World)
  extent_round (w, bytes) =
      if ltb (length bytes) size
      then read_chunk bytes (check_budget memory w)
      else done (w, ok bytes)

  -- Every round adds a byte or ends the loop.
  unfoldable pub read_extent : World → Option (Read World)
  read_extent w =
      if leb size extent_read_chunk
      then some (memory.read_exact base size w)
      else iterate extent_round (size + 1) (w, [])

-- `DISCOVERY_BUDGET_SHARE`.
abbrev pub share_numerator : ℕ
share_numerator = 2

abbrev pub share_denominator : ℕ
share_denominator = 3

-- Instants and durations are counts of nanoseconds. The last instant is the platform's.
module _ (last_instant : ℕ) where
  -- `Instant::checked_add`.
  abbrev pub after : ℕ → ℕ → Option ℕ
  after start duration =
      if leb (start + duration) last_instant then some (start + duration) else none

  abbrev pub shared_deadlines : ℕ → Option ℕ → Option ℕ → Option ℕ × Option ℕ
  shared_deadlines start budget none = (none, none)
  shared_deadlines start budget (some whole) =
      (budget >>= λ full. after start (full / share_denominator * share_numerator), some whole)

  unfoldable pub budget_deadlines : ℕ → Option ℕ → Option ℕ × Option ℕ
  budget_deadlines start budget =
      shared_deadlines start budget (budget >>= λ full. after start full)
