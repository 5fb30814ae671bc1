-- ===== src/Layout/Resolve.antt =====
-- src/pool/layout.rs: the resolution of a layout from the debugger's symbols, and its cache.
mod Fields
mod Types
pub mod Complete
pub mod Cache
use dbgscope.Base.{
  ℕ, ◌≡◌, Bool, true, false, not, ◌&&◌, ◌||◌, if◌then◌else◌, Option, none, some, List, [], ◌∷◌, any,
  Result, ok, err,
}
use dbgscope.Base.Effects.{Effect, ◌>>=◌, answer}
use dbgscope.Base.Maps.{HashMap, get, write_entry}
use dbgscope.Base.Sorting.{filter}
use dbgscope.Layout.{
  AllocatorSchema, TypeLayout, LayoutKey, LayoutError, missing, interrupted, budget_expired,
  poll_failed, unsupported, same_name, has_name, dotted,
}
use dbgscope.Layout.Tables.{
  FieldSpec, TypeSpec, types, optional_types, user_types, optional_fields, user_optional_fields,
  required_globals, optional_globals,
}
use Prim.Native.String.{String}

-- The debugger's symbols. Every caller drops the engine's error, so a lookup that fails is none.
pub record Symbols (World : Type 0) : Type 0 where
  pub poll : Effect World LayoutError (Unit {0})
  pub symbol : String → World → World × Option ℕ
  pub type_id : ℕ → String → World → World × Option ℕ
  pub type_size : ℕ → ℕ → World → World × Option ℕ
  pub field : ℕ → ℕ → String → World → World × Option ℕ

-- `insert`.
abbrev pub insert : {V : Type 0} → String → V → HashMap String V → HashMap String V
insert name v map = write_entry same_name name (λ _. v) map

module _ {World : Type 0} where
  -- `ok_or_else`, and `map_err`, with the item that is missing.
  abbrev pub required : String → Option ℕ → Effect World LayoutError ℕ
  required item none = answer (err (missing item))
  required item (some a) = answer (ok a)

  -- A lookup of the engine, as a call that does not fail.
  abbrev pub look_up : (World → World × Option ℕ) → Effect World LayoutError (Option ℕ)
  look_up lookup w = let (after, answered) = lookup w in (after, ok answered)

-- `layout.fields.insert`, on the type in the map.
abbrev pub insert_field :
    String → String → ℕ → HashMap String TypeLayout → HashMap String TypeLayout
insert_field type_name canonical offset [] = []
insert_field type_name canonical offset ((name, layout) ∷ rest) =
    let others = insert_field type_name canonical offset rest in
    if same_name type_name name
    then (name, record layout { fields = insert canonical offset layout.fields }) ∷ rest
    else (name, layout) ∷ others

abbrev pub with_field :
    String → String → HashMap String TypeLayout → Option ℕ → HashMap String TypeLayout
with_field type_name canonical map none = map
with_field type_name canonical map (some offset) = insert_field type_name canonical offset map

abbrev pub with_global : String → HashMap String ℕ → Option ℕ → HashMap String ℕ
with_global canonical globals none = globals
with_global canonical globals (some address) = insert canonical address globals

-- The kernel's types, which the user schema leaves out.
abbrev pub excluded : List String
excluded = "_EX_POOL_HEAP_MANAGER_STATE" ∷ "_EX_HEAP_POOL_NODE" ∷ "_POOL_HEADER" ∷ []

abbrev pub user_schema_types : List TypeSpec
user_schema_types = filter (λ spec. not (any (same_name spec.name) excluded)) types

abbrev pub user_optional_types : List TypeSpec
user_optional_types =
    filter (λ spec. not (same_name spec.name "_POOL_TRACKER_BIG_PAGES")) optional_types

abbrev pub has_signature : Option TypeLayout → Bool
has_signature none = false
has_signature (some layout) = has_name "Signature" layout.fields

module _ {World : Type 0} (symbols : Symbols World) where
  unfoldable pub polled : (World → World × Option ℕ) → Effect World LayoutError (Option ℕ)
  polled lookup = do _ ← symbols.poll; result ← look_up lookup; _ ← symbols.poll; answer (ok result)

  -- The first answer ends the aliases.
  abbrev pub or_next :
      Effect World LayoutError (Option ℕ) → Option ℕ → Effect World LayoutError (Option ℕ)
  or_next next none = next
  or_next next (some a) = answer (ok (some a))

  unfoldable pub first_available :
      List String → (String → World → World × Option ℕ) → Effect World LayoutError (Option ℕ)
  first_available [] lookup = answer (ok none)
  first_available (alias ∷ aliases) lookup = do
    value ← polled (lookup alias)
    or_next (first_available aliases lookup) value

  -- The loop over the fields of a type, with those that are resolved.
  unfoldable pub resolve_fields :
      ℕ
      → ℕ
      → String
      → List FieldSpec
      → HashMap String ℕ
      → Effect World LayoutError (HashMap String ℕ)
  resolve_fields base id name [] fields = answer (ok fields)
  resolve_fields base id name ((canonical, aliases) ∷ specs) fields = do
    value ← first_available aliases (symbols.field base id)
    offset ← required (dotted name canonical) value
    resolve_fields base id name specs (insert canonical offset fields)

  unfoldable pub resolve_type : ℕ → TypeSpec → Effect World LayoutError TypeLayout
  resolve_type base spec = do
    id_value ← polled (symbols.type_id base spec.name)
    id ← required spec.name id_value
    size_value ← polled (symbols.type_size base id)
    size ← required spec.name size_value
    fields ← resolve_fields base id spec.name spec.fields []
    answer (ok (record { size = size; fields = fields }))

  -- The field of a type whose number is known, or none.
  abbrev pub field_of_type : ℕ → List String → Option ℕ → Effect World LayoutError (Option ℕ)
  field_of_type base aliases none = answer (ok none)
  field_of_type base aliases (some id) = first_available aliases (symbols.field base id)

  abbrev pub optional_field : ℕ → String → List String → Bool → Effect World LayoutError (Option ℕ)
  optional_field base type_name aliases false = answer (ok none)
  optional_field base type_name aliases true = do
    id ← polled (symbols.type_id base type_name)
    field_of_type base aliases id

  unfoldable pub apply_optional_fields :
      ℕ
      → List (String × FieldSpec)
      → HashMap String TypeLayout
      → Effect World LayoutError (HashMap String TypeLayout)
  apply_optional_fields base [] map = answer (ok map)
  apply_optional_fields base ((type_name, (canonical, aliases)) ∷ table) map = do
    offset ← optional_field base type_name aliases (has_name type_name map)
    apply_optional_fields base table (with_field type_name canonical map offset)

  unfoldable pub resolve_globals :
      List FieldSpec → HashMap String ℕ → Effect World LayoutError (HashMap String ℕ)
  resolve_globals [] globals = answer (ok globals)
  resolve_globals ((canonical, aliases) ∷ specs) globals = do
    value ← first_available aliases symbols.symbol
    address ← required canonical value
    resolve_globals specs (insert canonical address globals)

  unfoldable pub resolve_optional_globals :
      List FieldSpec → HashMap String ℕ → Effect World LayoutError (HashMap String ℕ)
  resolve_optional_globals [] globals = answer (ok globals)
  resolve_optional_globals ((canonical, aliases) ∷ specs) globals = do
    value ← first_available aliases symbols.symbol
    resolve_optional_globals specs (with_global canonical globals value)

  unfoldable pub resolve_types :
      ℕ
      → List TypeSpec
      → HashMap String TypeLayout
      → Effect World LayoutError (HashMap String TypeLayout)
  resolve_types base [] map = answer (ok map)
  resolve_types base (spec ∷ specs) map = do
    layout ← resolve_type base spec
    resolve_types base specs (insert spec.name layout map)

  -- A type that is missing is passed over; any other error ends the resolution.
  abbrev pub tolerate :
      String
      → HashMap String TypeLayout
      → World × Result TypeLayout LayoutError
      → World × Result (HashMap String TypeLayout) LayoutError
  tolerate name map (w, ok layout) = (w, ok (insert name layout map))
  tolerate name map (w, err (missing item)) = (w, ok map)
  tolerate name map (w, err (unsupported fingerprint detail)) =
      (w, err (unsupported fingerprint detail))
  tolerate name map (w, err interrupted) = (w, err interrupted)
  tolerate name map (w, err budget_expired) = (w, err budget_expired)
  tolerate name map (w, err (poll_failed detail)) = (w, err (poll_failed detail))

  unfoldable pub resolve_optional_types :
      ℕ
      → List TypeSpec
      → HashMap String TypeLayout
      → Effect World LayoutError (HashMap String TypeLayout)
  resolve_optional_types base [] map = answer (ok map)
  resolve_optional_types base (spec ∷ specs) map = do
    next ← (λ w. tolerate spec.name map (resolve_type base spec w))
    resolve_optional_types base specs next

  unfoldable pub resolve : LayoutKey → Effect World LayoutError AllocatorSchema
  resolve key = do
    globals ← resolve_globals required_globals []
    all_globals ← resolve_optional_globals optional_globals globals
    found_types ← resolve_types key.image.base types []
    more_types ← resolve_optional_types key.image.base optional_types found_types
    all_types ← apply_optional_fields key.image.base optional_fields more_types
    answer (ok (record { key = key; globals = all_globals; types = all_types }))

  unfoldable pub resolve_user : LayoutKey → Effect World LayoutError AllocatorSchema
  resolve_user key = do
    value ← polled (symbols.symbol "ntdll!RtlpHpHeapGlobals")
    heap_globals ← required "RtlpHpHeapGlobals" value
    shared ← resolve_types key.image.base user_schema_types []
    with_user ← resolve_types key.image.base user_types shared
    more_types ← resolve_optional_types key.image.base user_optional_types with_user
    some_fields ← apply_optional_fields key.image.base optional_fields more_types
    all_types ← apply_optional_fields key.image.base user_optional_fields some_fields
    if has_signature (get same_name "_SEGMENT_HEAP" all_types)
        then answer (
            ok (record {
              key = key;
              globals = insert "RtlpHpHeapGlobals" heap_globals [];
              types = all_types;
            }))
        else answer (err (missing "_SEGMENT_HEAP.Signature"))
