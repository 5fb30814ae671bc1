-- ===== src/Layout/Shapes.antt =====
-- src/pool/layout.rs and src/allocator.rs: which representation of the free chunks a layout describes,
-- from the fields that it has.
pub mod Families
use dbgscope.Base.{
  ℕ, ◌≡◌, Bool, true, false, ◌&&◌, if◌then◌else◌, Option, none, some, List, [], ◌∷◌, length, ltb,
  Result, ok, err,
}
use dbgscope.Layout.{
  AllocatorSchema, LayoutError, missing, unsupported, interrupted, budget_expired, poll_failed,
  field, same_name, dotted,
}
use dbgscope.Layout.Tables.{inline_vs_fields, affinity_vs_fields, slot_back_references}
use Prim.Native.String.{String, ◌++◌}

pub data VsSemanticFamily : Type 0 where
  inline affinity_slots affinity_slots_self_relative : VsSemanticFamily

-- `as_str`.
unfoldable pub as_str : VsSemanticFamily → String
as_str inline = "inline"
as_str affinity_slots = "affinity-slots"
as_str affinity_slots_self_relative = "affinity-slots-self-relative"

pub data SlotBackReference : Type 0 where
  address displacement : ℕ → SlotBackReference

pub record AffinitySlots : Type 0 where
  pub slot_map_ref : ℕ
  pub affinity_mask : ℕ
  pub slot_ref : ℕ
  pub tree : ℕ
  pub delay : Option ℕ
  pub back : SlotBackReference

-- `Inline` holds a tree and a delay-free context.
pub data VsShape : Type 0 where
  inline_tree : ℕ → Option ℕ → VsShape
  slots : AffinitySlots → VsShape

abbrev pub family_of_back : SlotBackReference → VsSemanticFamily
family_of_back (address _) = affinity_slots
family_of_back (displacement _) = affinity_slots_self_relative

unfoldable pub family : VsShape → VsSemanticFamily
family (inline_tree _ _) = inline
family (slots shape) = family_of_back shape.back

-- `Display` of an error.
abbrev pub to_string : LayoutError → String
to_string (missing item) = "missing allocator symbols (" ++ item ++ ")"
to_string (unsupported fingerprint detail) =
    "unsupported allocator layout " ++ fingerprint ++ ": " ++ detail
to_string interrupted = "allocator layout resolution was interrupted on request"
to_string budget_expired = "allocator layout resolution ran out of its walk budget"
to_string (poll_failed detail) = "polling allocator layout resolution failed: " ++ detail

abbrev pub join : String → List String → String
join separator [] = ""
join separator (text ∷ []) = text
join separator (text ∷ other ∷ texts) = text ++ separator ++ join separator (other ∷ texts)

-- `Result::is_ok` and `Result::ok`.
abbrev pub is_ok : {E : Type 0} → Result ℕ E → Bool
is_ok (ok _) = true
is_ok (err _) = false

abbrev pub ok_value : Result ℕ LayoutError → Option ℕ
ok_value (ok a) = some a
ok_value (err _) = none

-- `?` after `map_err(|error| error.to_string())`.
infixl 5 ◌>>=◌
abbrev pub ◌>>=◌ : Result ℕ LayoutError → (ℕ → Result VsShape String) → Result VsShape String
ok a >>= f = f a
err e >>= f = err (to_string e)

-- A name that is absent goes before the rest.
abbrev pub absent_before : String → Result ℕ LayoutError → List String → List String
absent_before name (ok _) rest = rest
absent_before name (err _) rest = name ∷ rest

-- A back reference that is present goes before the rest.
abbrev pub back_before : String → Result ℕ LayoutError → List (String × ℕ) → List (String × ℕ)
back_before name (ok offset) rest = (name, offset) ∷ rest
back_before name (err _) rest = rest

abbrev pub is_empty : {A : Type 0} → List A → Bool
is_empty [] = true
is_empty (_ ∷ _) = false

abbrev pub slot_back : List (String × ℕ) → Option SlotBackReference
slot_back ((name, offset) ∷ []) =
    if same_name name "VsContext"
    then some (address offset)
    else if same_name name "VsContextOffset"
    then some (displacement offset)
    else none
slot_back _ = none

abbrev pub field_names : List (String × String) → List String
field_names [] = []
field_names ((type_name, name) ∷ fields) = dotted type_name name ∷ field_names fields

abbrev pub back_names : List (String × ℕ) → List String
back_names [] = []
back_names ((name, _) ∷ backs) = name ∷ back_names backs

module _ (self : AllocatorSchema) where
  unfoldable pub absent : List (String × String) → List String
  absent [] = []
  absent ((type_name, name) ∷ wanted) =
      absent_before (dotted type_name name) (field self type_name name) (absent wanted)

  abbrev pub backs_of : List String → List (String × ℕ)
  backs_of [] = []
  backs_of (name ∷ names) =
      back_before name (field self "_HEAP_VS_AFFINITY_SLOT" name) (backs_of names)

  -- `(inline_absent.is_empty(), affinity)`.
  abbrev pub shape_of : List String → List String → Option SlotBackReference → Result VsShape String
  shape_of [] affinity_absent (some _) = err (
      "both VS structural families are present and the layout is ambiguous (inline: "
      ++ join ", " (field_names inline_vs_fields)
      ++ "; affinity slots: "
      ++ join ", " (field_names affinity_vs_fields)
      ++ ")")
  shape_of [] affinity_absent none = do
    tree ← field self "_HEAP_VS_CONTEXT" "FreeChunkTree"
    ok (inline_tree tree (ok_value (field self "_HEAP_VS_CONTEXT" "DelayFreeContext")))
  shape_of (_ ∷ _) affinity_absent (some back) = do
    slot_map_ref ← field self "_HEAP_VS_CONTEXT" "SlotMapRef"
    affinity_mask ← field self "_HEAP_VS_CONTEXT" "AffinityMask"
    slot_ref ← field self "_HEAP_VS_SLOT_MAP" "SlotRef"
    tree ← field self "_HEAP_VS_AFFINITY_SLOT" "FreeChunkTree"
    ok (
        slots (record {
          slot_map_ref = slot_map_ref;
          affinity_mask = affinity_mask;
          slot_ref = slot_ref;
          tree = tree;
          delay = ok_value (field self "_HEAP_VS_AFFINITY_SLOT" "DelayFreeContext");
          back = back;
        }))
  shape_of (name ∷ names) affinity_absent none = err (
      if is_empty affinity_absent
      then "no recognized VS structural family is complete: the affinity-slot shape resolved except for how a slot names its context — _HEAP_VS_AFFINITY_SLOT carries none of "
        ++ join ", " slot_back_references
      else "no recognized VS structural family is complete: inline wants "
        ++ join ", " (name ∷ names)
        ++ ", affinity slots want "
        ++ join ", " affinity_absent)

  -- What the back references decide, once it is known what is absent.
  abbrev pub shape_with : List String → List String → List (String × ℕ) → Result VsShape String
  shape_with inline_absent affinity_absent backs =
      if is_empty affinity_absent && ltb 1 (length backs)
      then err (
          "_HEAP_VS_AFFINITY_SLOT carries "
          ++ join " and " (back_names backs)
          ++ ", so which one names the context is ambiguous and the layout is ambiguous with it")
      else shape_of inline_absent affinity_absent
          (if is_empty affinity_absent then slot_back backs else none)

  unfoldable pub vs_shape : Result VsShape String
  vs_shape =
      shape_with (absent inline_vs_fields) (absent affinity_vs_fields)
        (backs_of slot_back_references)
