-- ===== src/Walk/Extent/Whole.antt =====
-- An extent that is read in chunks is the one extent that was asked for.
use dbgscope.Base.{
  ℕ, zero, suc, ◌+◌, ◌-◌, ◌≤◌, ◌<◌, ◌≡◌, refl, ap, ◌∙◌, arith, false, ◌==◌, ==_iff, ltb, leb, min,
  Bool-cases, inl, inr, some, List, [], ◌∷◌, ◌++◌, length, length-append, Result, ok, err,
}
use dbgscope.Walk.Memory.{SnapshotError, PoolMemory, check_budget}
use dbgscope.Walk.Rounds.{Round, Keeps, iterate-returns}
use dbgscope.Walk.Extent.{extent_read_chunk, Read, add_chunk, read_chunk, extent_round, read_extent}

-- The bytes of a content from an address on.
abbrev pub bytes_from : (ℕ → ℕ) → ℕ → ℕ → List ℕ
bytes_from content address zero = []
bytes_from content address (suc n) = content address ∷ bytes_from content (address + 1) n

-- A read that has all of its bytes has those of the content.
abbrev pub IsContent : (ℕ → ℕ) → ℕ → ℕ → Result (List ℕ) SnapshotError → Type 0
IsContent content address size (ok bytes) =
    length bytes ≡ size → bytes ≡ bytes_from content address size
IsContent content address size (err e) = Unit

-- What is read of an extent: its content, and all of it where it is read in chunks.
abbrev pub IsExtent : (ℕ → ℕ) → ℕ → ℕ → Result (List ℕ) SnapshotError → Type 0
IsExtent content address size (ok bytes) =
    (length bytes ≡ size → bytes ≡ bytes_from content address size)
    × (extent_read_chunk < size → length bytes ≡ size)
IsExtent content address size (err e) = Unit

pub length-bytes_from :
    (content : ℕ → ℕ) (address n : ℕ) → length (bytes_from content address n) ≡ n
length-bytes_from content address zero = refl
length-bytes_from content address (suc n) = ap suc (length-bytes_from content (address + 1) n)

bytes_from-append :
    (content : ℕ → ℕ) (address m n : ℕ)
    → bytes_from content address m ++ bytes_from content (address + m) n
      ≡ bytes_from content address (m + n)
bytes_from-append content address zero n =
    ap (λ a. bytes_from content a n) {x = address + 0} {y = address} (omega arith)
    ∙ ap (bytes_from content address) {x = n} {y = 0 + n} (omega arith)
bytes_from-append content address (suc m) n =
    ap (λ a. bytes_from content address (suc m) ++ bytes_from content a n) {x = address + suc m}
      {y = address + 1 + m} (omega arith)
    ∙ ap (λ t. content address ∷ t) (bytes_from-append content (address + 1) m n)
    ∙ ap (bytes_from content address) {x = suc (m + n)} {y = suc m + n} (omega arith)

module _ {World : Type 0} (memory : PoolMemory World) (content : ℕ → ℕ) (base size : ℕ)
    (reads : (address n : ℕ) (w : World)
      → IsContent content address n (memory.read_exact address n w).1) where
  abbrev IsPrefix : World × List ℕ → Type 0
  IsPrefix s = (s.1 ≡ bytes_from content base (length s.1)) × (length s.1 ≤ size)

  abbrev left : World × List ℕ → ℕ
  left s = size - length s.1

  abbrev IsRead : Read World → Type 0
  IsRead o = IsExtent content base size o.1

  abbrev KeepsPrefix : ℕ → Round (World × List ℕ) (Read World) → Type 0
  KeepsPrefix = Keeps IsPrefix left IsRead

  add_chunk-Keeps :
      (bytes : List ℕ) (wanted : ℕ) (read : Read World)
      → IsPrefix (read.0, bytes)
      → 0 < wanted
      → wanted ≤ size - length bytes
      → IsContent content (base + length bytes) wanted read.1
      → KeepsPrefix (size - length bytes) (add_chunk memory base size bytes wanted read)
  add_chunk-Keeps bytes wanted (w, err e) h some_wanted room is = tt
  add_chunk-Keeps bytes wanted (w, ok chunk) (prefix, low) some_wanted room is =
      elim (Bool-cases (length chunk == wanted)) [
        | inr short ↦ rw (Keeps, short) tt
        | inl full ↦
            let size_of = length-append bytes chunk in
            let all : length chunk ≡ wanted = (==_iff _ _).0 full in
            rw (Keeps, full)
              (
                (
                  (ap (λ b. b ++ chunk) prefix
                      ∙ ap (λ c. bytes_from content base (length bytes) ++ c) (is all)
                      ∙ bytes_from-append content base (length bytes) wanted
                      ∙ ap (bytes_from content base) {x = length bytes + wanted} (omega arith)),
                  omega arith,
                ),
                omega arith,
              )
      ]

  read_chunk-Keeps :
      (bytes : List ℕ) (polled : World × Result (Unit {0}) SnapshotError)
      → IsPrefix (polled.0, bytes)
      → length bytes < size
      → KeepsPrefix (size - length bytes) (read_chunk memory base size bytes polled)
  read_chunk-Keeps bytes (w, err e) h more = tt
  read_chunk-Keeps bytes (w, ok _) h more =
      let wanted = min extent_read_chunk (size - length bytes) in
      add_chunk-Keeps bytes wanted (memory.read_exact (base + length bytes) wanted w) h
        (omega arith) (omega arith) (reads (base + length bytes) wanted w)

  extent_round-Keeps :
      (s : World × List ℕ) → IsPrefix s → KeepsPrefix (left s) (extent_round memory base size s)
  unfolding extent_round
  extent_round-Keeps (w, bytes) h = elim (Bool-cases (ltb (length bytes) size)) [
    | inl more ↦ rw (Keeps, more) (read_chunk-Keeps bytes (check_budget memory w) h (ground arith))
    | inr ended ↦
        let all : length bytes ≡ size = at_end h.1 ended in
        rw (Keeps, ended) ((λ _. h.0 ∙ ap (bytes_from content base) all), λ _. all)
  ]
    where
      at_end : length bytes ≤ size → ltb (length bytes) size ≡ false → length bytes ≡ size
      at_end low e = ground arith

  whole-IsExtent :
      (read : Result (List ℕ) SnapshotError)
      → size ≤ extent_read_chunk
      → IsContent content base size read
      → IsExtent content base size read
  whole-IsExtent (err e) small h = tt
  whole-IsExtent (ok bytes) small h = (h, λ large. absurd (omega arith))

  -- Where a read of the memory that has all of its bytes has those of a fixed content, the reading of an
  -- extent ends, and so has what it reads: bytes as many as were asked for are the content from the base
  -- on, whichever chunks they were read in. An extent that is larger than a chunk is read with all of its
  -- bytes, or not at all.
  pub read_extent-IsExtent :
      (w : World)
      → (o : Read World) × (read_extent memory base size w ≡ some o)
        × IsExtent content base size o.1
  unfolding read_extent
  read_extent-IsExtent w = elim (Bool-cases (leb size extent_read_chunk)) [
    | inl small ↦ rw small (
      memory.read_exact base size w,
      refl,
      whole-IsExtent (memory.read_exact base size w).1 (ground arith) (reads base size w),
    )
    | inr large ↦ rw large (
        iterate-returns (extent_round memory base size) IsPrefix left IsRead extent_round-Keeps
          (size + 1) (w, []) (refl, omega arith) (omega arith))
  ]
