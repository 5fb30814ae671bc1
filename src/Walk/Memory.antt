-- ===== src/Walk/Memory.antt =====
-- src/pool/snapshot.rs: the memory that a walk reads, the budget it polls, and its errors. The memory
-- and the clock are a world that every access may change, since a live target runs on.
use dbgscope.Base.{
  ℕ, Bool, true, false, ◌||◌, not, ◌==◌, ltb, leb, if◌then◌else◌, Option, none, some, List, [], ◌∷◌,
  length, Result, ok, err,
}
use dbgscope.Base.Effects.{Effect, ◌>>=◌, answer}
use dbgscope.Decode.Bytes.{from_le_bytes}

-- The engine's own error, which some of these carry along, is left out.
pub data SnapshotError : Type 0 where
  read_failed region_query : ℕ → ℕ → SnapshotError
  region_validation : ℕ → ℕ → ℕ → ℕ → SnapshotError
  layout_failed interrupted budget_expired interrupt_query invalid_data : SnapshotError

unfoldable pub halts_walk : SnapshotError → Bool
halts_walk interrupted = true
halts_walk budget_expired = true
halts_walk _ = false

pub record CommitRun : Type 0 where
  pub end : ℕ
  pub committed : Bool

-- An access to the world, which may fail.
abbrev pub Access : Type 0 → Type 0 → Type 0
Access World A = Effect World SnapshotError A

pub record PoolMemory (World : Type 0) : Type 0 where
  pub read_exact : ℕ → ℕ → Access World (List ℕ)
  pub valid_region : ℕ → ℕ → Access World (ℕ × ℕ)
  pub interrupted : Access World Bool
  pub out_of_budget : World → World × Bool
  pub committed_run : World → ℕ → World × Option CommitRun

module _ {World : Type 0} where
  -- `Budgeted`: the deadline stands before whatever the source already has.
  unfoldable pub budgeted : (World → World × ℕ) → Option ℕ → PoolMemory World → PoolMemory World
  budgeted now none inner = inner
  budgeted now (some deadline) inner = record inner {
    out_of_budget = λ w.
        let (after, time) = now w in
        let asked = inner.out_of_budget after in if leb deadline time then (after, true) else asked;
  }

-- The value of the bytes, where there are as many as asked for.
abbrev pub exactly : ℕ → List ℕ → Result ℕ SnapshotError
exactly size bytes = if length bytes == size then ok (from_le_bytes bytes) else err invalid_data

-- `bytes.first()`.
abbrev pub first_byte : List ℕ → Result ℕ SnapshotError
first_byte [] = err invalid_data
first_byte (byte ∷ rest) = ok byte

module _ {World : Type 0} (memory : PoolMemory World) where
  abbrev pub poll_deadline : Access World (Unit {0})
  poll_deadline w =
      let (after, late) = memory.out_of_budget w in
      if late then (after, err budget_expired) else (after, ok tt)

  unfoldable pub check_budget : Access World (Unit {0})
  check_budget = do
    stop ← memory.interrupted
    if stop then answer (err interrupted) else poll_deadline

  -- A read behind the check that the whole of it is valid.
  abbrev pub checked_read : ℕ → ℕ → ℕ × ℕ → Access World (List ℕ)
  checked_read address size (valid_base, valid_size) =
      if not (valid_base == address) || ltb valid_size size
      then answer (err (region_validation address size valid_base valid_size))
      else memory.read_exact address size

  unfoldable pub guarded_read : ℕ → ℕ → Access World (List ℕ)
  guarded_read address size =
      if size == 0
      then answer (ok [])
      else do valid ← memory.valid_region address size; checked_read address size valid

  -- The bytes of a scalar of one of the four widths.
  abbrev pub scalar_of : ℕ → List ℕ → Result ℕ SnapshotError
  scalar_of size bytes =
      if size == 1
      then first_byte bytes
      else if size == 2 || (size == 4 || size == 8)
      then exactly size bytes
      else err invalid_data

  unfoldable pub scalar : ℕ → ℕ → Access World ℕ
  scalar address size = do bytes ← guarded_read address size; answer (scalar_of size bytes)
