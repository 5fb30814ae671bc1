-- ===== src/Layout.antt =====
-- src/pool/layout.rs: where the types and fields of the target's allocator lie.
pub mod Tables
pub mod Resolve
pub mod Shapes
mod Tests
use dbgscope.Base.{
  ℕ, ◌+◌, ◌≡◌, Bool, true, false, not, ◌&&◌, ◌==◌, if◌then◌else◌, Option, none, some, List, [], ◌∷◌,
  Result, ok, err,
}
use dbgscope.Base.Maps.{HashMap, get}
use dbgscope.Decode.Lfh.{LfhBitmap, split_word, contiguous_bits}
use dbgscope.Decode.Header.{PoolHeaderLayout}
use Prim.Native.String.{String, ◌++◌, compare}
use Prim.Native.Nat.{Ordering}

-- `==` on texts.
abbrev pub same_name : String → String → Bool
same_name a b = elim (compare a b) [ Ordering.eq ↦ true | _ ↦ false ]

pub record KernelImage : Type 0 where
  pub base : ℕ
  pub size : ℕ  -- u32
  pub timestamp : ℕ  -- u32
  pub checksum : ℕ  -- u32

pub record SessionKey : Type 0 where
  pub image : KernelImage
  pub session : ℕ
  pub target : ℕ

pub record LayoutKey : Type 0 where
  pub image : KernelImage
  pub session : ℕ

-- `LayoutKey::from`.
abbrev pub layout_key_of : SessionKey → LayoutKey
layout_key_of key = record { image = key.image; session = key.session }

-- The derived `PartialEq` of an image and of a key.
abbrev pub same_image : KernelImage → KernelImage → Bool
same_image a b =
    a.base == b.base && a.size == b.size && a.timestamp == b.timestamp && a.checksum == b.checksum

abbrev pub same_layout_key : LayoutKey → LayoutKey → Bool
same_layout_key a b = same_image a.image b.image && a.session == b.session

pub record TypeLayout : Type 0 where
  pub size : ℕ  -- u32
  pub fields : HashMap String ℕ

pub record AllocatorSchema : Type 0 where
  pub key : LayoutKey
  pub globals : HashMap String ℕ
  pub types : HashMap String TypeLayout

abbrev pub PoolLayout : Type 0
PoolLayout = AllocatorSchema

pub data LayoutError : Type 0 where
  missing : String → LayoutError
  unsupported : String → String → LayoutError
  interrupted budget_expired : LayoutError
  poll_failed : String → LayoutError

-- `ok_or_else` with the item that is missing.
abbrev pub found : {A : Type 0} → String → Option A → Result A LayoutError
found item none = err (missing item)
found item (some a) = ok a

-- `contains_key`.
abbrev pub has_name : {V : Type 0} → String → HashMap String V → Bool
has_name name map = elim (get same_name name map) [ none ↦ false | some v ↦ true ]

-- `format!("{type_name}.{field}")`.
abbrev pub dotted : String → String → String
dotted type_name name = type_name ++ "." ++ name

abbrev pub field_in : String → String → Result TypeLayout LayoutError → Result ℕ LayoutError
field_in type_name name (err e) = err e
field_in type_name name (ok layout) =
    found (dotted type_name name) (get same_name name layout.fields)

module _ (self : AllocatorSchema) where
  unfoldable pub is_user : Bool
  is_user = not (has_name "ExPoolState" self.globals) && has_name "RtlpHpHeapGlobals" self.globals

  unfoldable pub lfh_bitmap : LfhBitmap
  lfh_bitmap = if is_user then split_word else contiguous_bits

  unfoldable pub type_layout : String → Result TypeLayout LayoutError
  type_layout name = found name (get same_name name self.types)

  unfoldable pub field : String → String → Result ℕ LayoutError
  field type_name name = field_in type_name name (type_layout type_name)

-- `?` on a `Result`.
infixl 5 ◌>>=◌
abbrev pub ◌>>=◌ :
    {A B : Type 0} → Result A LayoutError → (A → Result B LayoutError) → Result B LayoutError
ok a >>= f = f a
err e >>= f = err e

unfoldable pub pool_header_layout : AllocatorSchema → Result PoolHeaderLayout LayoutError
pool_header_layout self =
    if is_user self
    then ok (record {
      size = 0;
      previous_size = 0;
      pool_index = 0;
      block_size = 0;
      pool_type = 0;
      tag = 0;
    })
    else do
      header ← type_layout self "_POOL_HEADER"
      previous_size ← field self "_POOL_HEADER" "PreviousSize"
      pool_index ← field self "_POOL_HEADER" "PoolIndex"
      block_size ← field self "_POOL_HEADER" "BlockSize"
      pool_type ← field self "_POOL_HEADER" "PoolType"
      tag ← field self "_POOL_HEADER" "PoolTag"
      ok (record {
        size = header.size;
        previous_size = previous_size;
        pool_index = pool_index;
        block_size = block_size;
        pool_type = pool_type;
        tag = tag;
      })
