-- ===== src/Decode/Bytes.antt =====
-- src/pool/decode.rs: reads of little-endian words out of a byte slice. A slice is a list of
-- bytes; a read that leaves it is `none`.
pub mod Laws
use dbgscope.Base.{
  ℕ, ◌+◌, ◌-◌, ◌*◌, ◌≤◌, leb, if◌then◌else◌, Option, none, some, ◌>>=◌, List, [], ◌∷◌, length, take,
  drop, map,
}
use dbgscope.Base.Words.{checked_add}
use mathlib.Core.Option

-- `slice.get(start..end)`.
abbrev pub slice : List ℕ → ℕ → ℕ → Option (List ℕ)
slice bytes start end =
    if leb start end
    then if leb end (length bytes) then some (take (end - start) (drop start bytes)) else none
    else none

-- `range`.
unfoldable pub range : List ℕ → ℕ → ℕ → Option (List ℕ)
range bytes offset size = do end ← checked_add offset size; slice bytes offset end

-- `from_le_bytes`.
unfoldable pub from_le_bytes : List ℕ → ℕ
from_le_bytes [] = 0
from_le_bytes (b ∷ bs) = b + 256 * from_le_bytes bs

unfoldable pub read_u16 : List ℕ → ℕ → Option ℕ
read_u16 bytes offset = Option.map from_le_bytes (range bytes offset 2)

unfoldable pub read_u32 : List ℕ → ℕ → Option ℕ
read_u32 bytes offset = Option.map from_le_bytes (range bytes offset 4)

unfoldable pub read_u64 : List ℕ → ℕ → Option ℕ
read_u64 bytes offset = Option.map from_le_bytes (range bytes offset 8)
