-- ===== src/Decode/Pointers.antt =====
-- src/pool/decode.rs: tree roots, list links, large allocations and the big page table's hash.
pub mod Ranges
mod Tests
use dbgscope.Base.{
  ℕ, zero, suc, ◌+◌, ◌*◌, ◌-◌, ◌/◌, ◌%◌, ◌^◌, bit_and, bit_xor, Bool, true, false, not, ◌||◌, ◌&&◌,
  ◌==◌, ltb, leb, if◌then◌else◌, Option, none, some, then_some,
}
use dbgscope.Base.Words.{u64, checked_sub}

unfoldable pub is_kernel_pointer : ℕ → Bool
is_kernel_pointer pointer = pointer == 0 || leb 0xffff_8000_0000_0000 pointer

unfoldable pub is_user_pointer : ℕ → Bool
is_user_pointer pointer = leb 0x1_0000 pointer && ltb pointer 0x0000_8000_0000_0000

-- The pointers that a target's side of the ring boundary allows.
abbrev is_pointer : Bool → ℕ → Bool
is_pointer user pointer = if user then is_user_pointer pointer else is_kernel_pointer pointer

unfoldable pub decode_rb_root_for : ℕ → ℕ → Bool → Bool → Option ℕ
decode_rb_root_for root tree_address encoded user =
    let pointer = if encoded then bit_xor root tree_address else root in
    then_some (pointer == 0 || is_pointer user pointer) pointer

unfoldable pub decode_rb_root : ℕ → ℕ → Bool → Option ℕ
decode_rb_root root tree_address encoded = decode_rb_root_for root tree_address encoded false

-- `(region as i64 >> 4) as u64`: the shift copies the sign bit.
unfoldable pub decode_slist_header_next : ℕ → ℕ
decode_slist_header_next region =
    region / 2 ^ 4 + (if ltb region (2 ^ 63) then 0 else 0xf000_0000_0000_0000)

unfoldable pub decode_large_allocation_for : ℕ → ℕ → Bool → Option (ℕ × ℕ)
decode_large_allocation_for virtual_address_field allocated_pages_field user =
    let virtual_address = bit_and virtual_address_field (2 ^ 64 - 1 - 0xffff) in
    let allocated_pages = allocated_pages_field / 2 ^ 12 in
    then_some
      (not (virtual_address == 0)
        && (is_pointer user virtual_address && not (allocated_pages == 0)))
      (virtual_address, allocated_pages)

unfoldable pub decode_large_allocation : ℕ → ℕ → Option (ℕ × ℕ)
decode_large_allocation virtual_address_field allocated_pages_field =
    decode_large_allocation_for virtual_address_field allocated_pages_field false

unfoldable pub decode_large_requested_size : ℕ → ℕ → Bool → Option ℕ
decode_large_requested_size virtual_address_field allocated_bytes validated_alias =
    if not validated_alias
    then none
    else checked_sub allocated_bytes (bit_and virtual_address_field 0xffff)

-- `MAX_POOL_HEADER_CHUNK`.
abbrev pub max_pool_header_chunk : ℕ
max_pool_header_chunk = 0xff * 16

-- `usize::is_power_of_two`: the exponents below `k` are tried.
unfoldable pub is_power_below : ℕ → ℕ → Bool
is_power_below zero n = false
is_power_below (suc k) n = n == 2 ^ k || is_power_below k n

unfoldable pub is_power_of_two : ℕ → Bool
is_power_of_two n = is_power_below 64 n

unfoldable pub big_page_hash : ℕ → ℕ → Option ℕ
big_page_hash address table_size =
    if not (is_power_of_two table_size)
    then none
    else let product = u64 (address / 2 ^ 12 * 0x9e5f) in
      let hash = bit_xor product (product / 2 ^ 32) in some (bit_and hash (table_size - 1))
