-- ===== src/KernelAttach.antt =====
-- src/dbgeng/kernel_attach.rs: the watcher of the engine's output that sees a KDNET target announce
-- itself. A text is the list of its bytes.
pub mod Steps
pub mod Announcement
mod Tests
use dbgscope.Base.{
  ℕ, zero, suc, ◌+◌, ◌*◌, Bool, true, false, not, ◌||◌, ◌&&◌, ◌==◌, if◌then◌else◌, Option, none,
  some, List, [], ◌∷◌, ◌++◌, length, get_elem?, Result, ok, err,
}
use Prim.Native.String.{String}
use mathlib.Core.Option

-- "Connected to target ".
abbrev pub prefix : List ℕ
prefix =
    b'C' ∷ b'o' ∷ b'n' ∷ b'n' ∷ b'e' ∷ b'c' ∷ b't' ∷ b'e' ∷ b'd' ∷ b' ' ∷ b't' ∷ b'o' ∷ b' ' ∷ b't'
    ∷ b'a' ∷ b'r' ∷ b'g' ∷ b'e' ∷ b't' ∷ b' ' ∷ []

-- `DEBUG_OUTPUT_NORMAL`.
abbrev pub debug_output_normal : ℕ
debug_output_normal = 1

pub record Notice : Type 0 where
  pub matched : ℕ
  pub skip_line : Bool
  pub fired : Bool

unfoldable pub new_notice : Notice
new_notice = record { matched = 0; skip_line = false; fired = false }

-- One round of the loop over the bytes of `feed`. `PREFIX[self.matched]` is in range while the
-- notice has not fired.
unfoldable pub feed_byte : Notice → ℕ → Notice
feed_byte n byte =
    if byte == 0x0a
    then record n { matched = 0; skip_line = false }
    else if n.skip_line
    then n
    else if byte == Option.get_or (get_elem? prefix n.matched) 0
    then (if n.matched + 1 == length prefix
        then record n { matched = n.matched + 1; fired = true }
        else record n { matched = n.matched + 1 })
    else record n { matched = 0; skip_line = true }

-- The loop, which returns as soon as the notice fires.
unfoldable pub feed_bytes : Notice → List ℕ → Notice × Bool
feed_bytes n [] = (n, false)
feed_bytes n (byte ∷ rest) =
    let next = feed_byte n byte in
    let later = feed_bytes next rest in if next.fired then (next, true) else later

unfoldable pub feed : Notice → ℕ → List ℕ → Notice × Bool
feed n mask bytes =
    let watched = feed_bytes n bytes in
    if not (mask == debug_output_normal) || n.fired then (n, false) else watched

-- The messages of `validate_observation`; the request's `HRESULT` is `0` for `S_OK`.
abbrev pub s_ok : ℕ
s_ok = 0

unfoldable pub validate_observation : Option ℕ → Result (Unit {0}) String
validate_observation none = err "connection announcement was not observed"
validate_observation (some code) =
    if code == s_ok then ok tt else err "one-shot interrupt request failed"
