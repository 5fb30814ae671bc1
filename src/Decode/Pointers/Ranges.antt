-- ===== src/Decode/Pointers/Ranges.antt =====
-- Which words decode to which addresses.
use dbgscope.Base.{
  ℕ, zero, suc, ◌+◌, ◌*◌, ◌-◌, ◌/◌, ◌%◌, ◌^◌, ◌≤◌, ◌<◌, ◌≡◌, ap, sym, ◌∙◌, arith, Bool, true, ◌||◌,
  ◌==◌, if◌then◌else◌, none, some, bit_and, bit_xor, ◌⊎◌, inl, inr, Bool-cases, some_inj, ==_iff,
}
use dbgscope.Base.Words.{u64}
use dbgscope.Base.Bits.Mask.{and_low_mask, and_field}
use dbgscope.Base.Bits.Xor.{xor_cancel}
use native.Mathlib.Decide.{dec_lt}
use native.Mathlib.Nat.{mod-lt, one-le-pow}
use dbgscope.Decode.Pointers.{
  is_kernel_pointer, is_user_pointer, decode_rb_root_for, decode_slist_header_next,
  decode_large_allocation_for, decode_large_requested_size, is_power_below, is_power_of_two,
  big_page_hash,
}

-- A root stored mixed with its tree's address decodes to itself exactly where it is null or a
-- pointer of the target's side of the ring boundary, and to nothing otherwise.
pub decode_rb_root-encode :
    (root tree_address : ℕ) (user : Bool)
    → decode_rb_root_for (bit_xor root tree_address) tree_address true user ≡ (
        if root == 0 || (if user then is_user_pointer root else is_kernel_pointer root)
        then some root
        else none)
unfolding decode_rb_root_for
decode_rb_root-encode root tree_address user = rw (xor_cancel root tree_address) (ground arith)

-- No address but null is a pointer of both sides.
pub pointer_sides_disjoint :
    (pointer : ℕ) → is_kernel_pointer pointer ≡ true → is_user_pointer pointer ≡ true → pointer ≡ 0
unfolding is_kernel_pointer is_user_pointer
pointer_sides_disjoint pointer k u = ground arith

-- The 60 bits that a list header keeps of a 64-bit address, above four reserved bits, give the
-- whole address back wherever its top five bits agree.
pub decode_slist_header_next-encode :
    (address reserved : ℕ)
    → address < 2 ^ 64
    → reserved < 16
    → (address < 2 ^ 59) ⊎ (2 ^ 64 - 2 ^ 59 ≤ address)
    → decode_slist_header_next (address * 16 % 2 ^ 64 + reserved) ≡ address
unfolding decode_slist_header_next
decode_slist_header_next-encode address reserved h r s = ground arith

high_bits : (w : ℕ) → w < 2 ^ 64 → bit_and w (2 ^ 64 - 1 - 0xffff) ≡ w / 2 ^ 16 * 2 ^ 16
high_bits w h = and_field 48 16 w ∙ omega arith

-- The two packed words of a large allocation, at a nonzero 64 KB aligned address on the target's
-- side, with fewer than 2 ^ 16 unused bytes and no more than are allocated, and at least one
-- page above twelve other bits: the address, the page count and the requested size all come
-- back.
pub decode_large_allocation-encode :
    (virtual_address unused pages low allocated_bytes : ℕ) (user : Bool)
    → virtual_address < 2 ^ 64
    → virtual_address % 2 ^ 16 ≡ 0
    → unused < 2 ^ 16
    → low < 2 ^ 12
    → 0 < virtual_address
    → (if user then is_user_pointer virtual_address else is_kernel_pointer virtual_address) ≡ true
    → 0 < pages
    → unused ≤ allocated_bytes
    → (decode_large_allocation_for (virtual_address + unused) (pages * 2 ^ 12 + low) user
        ≡ some (virtual_address, pages))
      × (decode_large_requested_size (virtual_address + unused) allocated_bytes true
          ≡ some (allocated_bytes - unused))
unfolding decode_large_allocation_for decode_large_requested_size
decode_large_allocation-encode virtual_address unused pages low allocated_bytes user h a u l z p n
      b =
    let address : bit_and (virtual_address + unused) (2 ^ 64 - 1 - 0xffff) ≡ virtual_address =
      high_bits (virtual_address + unused) (omega arith) ∙ omega arith in
    let rest : bit_and (virtual_address + unused) 0xffff ≡ unused =
      and_low_mask 16 (virtual_address + unused) ∙ omega arith in
    (rw (address, p) (ground arith), rw rest (ground arith))

is_power_below-exponent : (k n : ℕ) → is_power_below k n ≡ true → (j : ℕ) × (j < k) × (n ≡ 2 ^ j)
unfolding is_power_below
is_power_below-exponent zero n e = absurd (cc)
is_power_below-exponent (suc k) n e = elim (Bool-cases (n == 2 ^ k)) [
  | inl here ↦ (k, omega arith, (==_iff n (2 ^ k)).0 here)
  | inr other ↦ let (j, h, p) = is_power_below-exponent k n (rw other at e) in (j, omega arith, p)
]

power-is_power_below : (k j : ℕ) → j < k → is_power_below k (2 ^ j) ≡ true
unfolding is_power_below
power-is_power_below zero j h = absurd (omega arith)
power-is_power_below (suc k) j h = elim (dec_lt j k) [
  | yes below ↦ ground (arith, power-is_power_below k j below)
  | no above ↦ let same : j ≡ k = omega arith in rw same (ground arith)
]

is_power_of_two-pow : (k : ℕ) → k < 64 → is_power_of_two (2 ^ k) ≡ true
unfolding is_power_of_two
is_power_of_two-pow k h = power-is_power_below 64 k h

is_power_of_two_exponent : (n : ℕ) → is_power_of_two n ≡ true → (k : ℕ) × (k < 64) × (n ≡ 2 ^ k)
unfolding is_power_of_two
is_power_of_two_exponent n e = is_power_below-exponent 64 n e

-- The page number spread over 64 bits and folded onto its low half.
abbrev pub page_mix : ℕ → ℕ
page_mix address =
    bit_xor (u64 (address / 2 ^ 12 * 0x9e5f)) (u64 (address / 2 ^ 12 * 0x9e5f) / 2 ^ 32)

-- A table whose size is a power of two, below 2 ^ 64, gives every address a slot: the mix, modulo the
-- size.
pub big_page_hash-power :
    (address table_size k : ℕ)
    → k < 64
    → table_size ≡ 2 ^ k
    → big_page_hash address table_size ≡ some (page_mix address % table_size)
unfolding big_page_hash
big_page_hash-power address table_size k h e =
    rw (e, is_power_of_two-pow k h) (ap some (and_low_mask k (page_mix address)))

-- A slot lies inside the table, and only a table whose size is a power of two gives one.
pub big_page_hash_slot :
    (address table_size slot : ℕ)
    → big_page_hash address table_size ≡ some slot
    → (slot < table_size) × (k : ℕ) × (k < 64) × (table_size ≡ 2 ^ k)
unfolding big_page_hash
big_page_hash_slot address table_size slot e = elim (Bool-cases (is_power_of_two table_size)) [
  | inl power ↦
      let (k, h, p) = is_power_of_two_exponent table_size power in
      let same : page_mix address % table_size ≡ slot =
        some_inj (sym (big_page_hash-power address table_size k h p) ∙ e) in
      (rw (← same, p) (mod-lt (page_mix address) (one-le-pow k 2 (omega arith))), k, h, p)
  | inr other ↦ absurd (cc (rw other at e))
]
