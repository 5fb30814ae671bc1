-- ===== src/Decode/Pointers/Tests.antt =====
-- Pointers of either side, and a table of sixteen slots.
use dbgscope.Base.{◌≡◌, true, refl, some}
use dbgscope.Decode.Pointers.{big_page_hash, is_power_of_two, is_power_below, is_user_pointer}

slot_of_page : big_page_hash 0x1000 16 ≡ some 15
unfolding big_page_hash is_power_of_two is_power_below
slot_of_page = refl

user_side : is_user_pointer 0x7000_0000 ≡ true
unfolding is_user_pointer
user_side = refl
