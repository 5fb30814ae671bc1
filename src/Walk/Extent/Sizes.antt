-- ===== src/Walk/Extent/Sizes.antt =====
-- An extent that is read has as many bytes as were asked for.
use dbgscope.Base.{
  ℕ, ◌+◌, ◌-◌, ◌≤◌, ◌<◌, ◌≡◌, refl, arith, false, ◌==◌, ==_iff, ltb, leb, min, Bool-cases, inl, inr,
  some, List, [], length, length-append, Result, ok, err,
}
use dbgscope.Walk.Memory.{SnapshotError, PoolMemory, check_budget}
use dbgscope.Walk.Rounds.{Keeps, iterate-returns}
use dbgscope.Walk.Extent.{extent_read_chunk, Read, add_chunk, read_chunk, extent_round, read_extent}

-- A read that is answered has so many bytes.
abbrev pub IsExact : ℕ → Result (List ℕ) SnapshotError → Type 0
IsExact size (ok bytes) = length bytes ≡ size
IsExact size (err e) = Unit

module _ {World : Type 0} (memory : PoolMemory World) (base size : ℕ) where
  abbrev IsPart : World × List ℕ → Type 0
  IsPart s = length s.1 ≤ size

  abbrev left : World × List ℕ → ℕ
  left s = size - length s.1

  abbrev IsRead : Read World → Type 0
  IsRead o = IsExact size o.1

  add_chunk-Keeps :
      (bytes : List ℕ) (wanted : ℕ) (read : Read World)
      → 0 < wanted
      → wanted ≤ size - length bytes
      → Keeps IsPart left IsRead
          (size - length bytes)
          (add_chunk memory base size bytes wanted read)
  add_chunk-Keeps bytes wanted (w, err e) some_wanted room = tt
  add_chunk-Keeps bytes wanted (w, ok chunk) some_wanted room =
      elim (Bool-cases (length chunk == wanted)) [
        | inr short ↦ rw (Keeps, short) tt
        | inl full ↦
            let size_of = length-append bytes chunk in
            let all : length chunk ≡ wanted = (==_iff _ _).0 full in
            rw (Keeps, full) (omega arith, omega arith)
      ]

  read_chunk-Keeps :
      (bytes : List ℕ) (polled : World × Result (Unit {0}) SnapshotError)
      → length bytes < size
      → Keeps IsPart left IsRead (size - length bytes) (read_chunk memory base size bytes polled)
  read_chunk-Keeps bytes (w, err e) more = tt
  read_chunk-Keeps bytes (w, ok _) more =
      add_chunk-Keeps bytes (min extent_read_chunk (size - length bytes)) _ (omega arith)
        (omega arith)

  extent_round-Keeps :
      (s : World × List ℕ)
      → IsPart s
      → Keeps IsPart left IsRead (left s) (extent_round memory base size s)
  unfolding extent_round
  extent_round-Keeps (w, bytes) low = elim (Bool-cases (ltb (length bytes) size)) [
    | inl more ↦ rw (Keeps, more) (read_chunk-Keeps bytes (check_budget memory w) (ground arith))
    | inr ended ↦ rw (Keeps, ended) (at_end low ended)
  ]
    where
      at_end : length bytes ≤ size → ltb (length bytes) size ≡ false → length bytes ≡ size
      at_end low e = ground arith

  -- Where one read of the memory has all of its bytes, so has the reading of an extent, which ends.
  pub read_extent-IsExact :
      (w : World)
      → ((v : World) → IsExact size (memory.read_exact base size v).1)
      → (o : Read World) × (read_extent memory base size w ≡ some o) × IsExact size o.1
  unfolding read_extent
  read_extent-IsExact w exact = elim (Bool-cases (leb size extent_read_chunk)) [
    | inl small ↦ rw small (memory.read_exact base size w, refl, exact w)
    | inr large ↦ rw large (
        iterate-returns (extent_round memory base size) IsPart left IsRead extent_round-Keeps
          (size + 1) (w, []) (omega arith) (omega arith))
  ]
