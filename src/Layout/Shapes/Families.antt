-- ===== src/Layout/Shapes/Families.antt =====
-- Which family a layout is of.
use dbgscope.Base.{
  ℕ, ◌≡◌, refl, ap, ◌∙◌, Bool, true, false, if◌then◌else◌, Result-cases, &&-eq-true, inl, inr,
  Option, none, some, List, [], ◌∷◌, all, Result, ok, err,
}
use dbgscope.Layout.{AllocatorSchema, LayoutError, field}
use dbgscope.Layout.Tables.{inline_vs_fields, affinity_vs_fields}
use dbgscope.Layout.Shapes.{
  VsSemanticFamily, inline, affinity_slots, affinity_slots_self_relative, VsShape, family,
  family_of_back, SlotBackReference, is_ok, is_empty, absent, back_before, shape_of, shape_with,
  vs_shape,
}
use Prim.Native.String.{String}

abbrev pub family_of : Result VsShape String → Option VsSemanticFamily
family_of (ok shape) = some (family shape)
family_of (err _) = none

-- The family that the presence of the inline fields, of the slots' fields and of the two back
-- references decides.
abbrev pub expected : Bool → Bool → Bool → Bool → Option VsSemanticFamily
expected inline_fields false at offset = if inline_fields then some inline else none
expected inline_fields true true true = none
expected inline_fields true false false = if inline_fields then some inline else none
expected inline_fields true true false = if inline_fields then none else some affinity_slots
expected inline_fields true false true =
    if inline_fields then none else some affinity_slots_self_relative

module _ (self : AllocatorSchema) where
  abbrev pub has : String × String → Bool
  has (type_name, name) = is_ok (field self type_name name)

  is_ok-eq : {E : Type 0} (r : Result ℕ E) → is_ok r ≡ true → (a : ℕ) × (r ≡ ok a)
  is_ok-eq (ok a) h = (a, refl)
  is_ok-eq (err e) h = absurd (cc)

  absent-all : (wanted : List (String × String)) → is_empty (absent self wanted) ≡ all has wanted
  unfolding absent
  absent-all [] = refl
  absent-all ((type_name, name) ∷ wanted) = elim (Result-cases (field self type_name name)) [
    | inl e ↦ let (a, eq) = e in rw (eq) (absent-all wanted)
    | inr e ↦ let (a, eq) = e in rw (eq)
  ]

  inline-family :
      (others : List String)
      → all has inline_vs_fields ≡ true
      → family_of (shape_of self [] others none) ≡ some inline
  unfolding family
  inline-family others h =
      let (a, tree) = is_ok-eq _ (&&-eq-true (has ("_HEAP_VS_CONTEXT", "FreeChunkTree")) _ h).0 in
      rw tree

  slots-family :
      (name : String) (names others : List String) (back : SlotBackReference)
      → all has affinity_vs_fields ≡ true
      → family_of (shape_of self (name ∷ names) others (some back)) ≡ some (family_of_back back)
  unfolding family
  slots-family name names others back h =
      let (map_ok, h1) = &&-eq-true (has ("_HEAP_VS_CONTEXT", "SlotMapRef")) _ h in
      let (mask_ok, h2) = &&-eq-true (has ("_HEAP_VS_CONTEXT", "AffinityMask")) _ h1 in
      let (tree_ok, h3) = &&-eq-true (has ("_HEAP_VS_AFFINITY_SLOT", "FreeChunkTree")) _ h2 in
      let (delay_ok, h4) = &&-eq-true (has ("_HEAP_VS_AFFINITY_SLOT", "DelayFreeContext")) _ h3 in
      let (ref_ok, h5) = &&-eq-true (has ("_HEAP_VS_SLOT_MAP", "SlotRef")) _ h4 in
      let (a, map_at) = is_ok-eq _ map_ok in
      let (b, mask_at) = is_ok-eq _ mask_ok in
      let (c, ref_at) = is_ok-eq _ ref_ok in
      let (d, tree_at) = is_ok-eq _ tree_ok in rw (map_at, mask_at, ref_at, tree_at)

  shape_with-family :
      (inline_absent affinity_absent : List String) (at offset : Result ℕ LayoutError)
      → is_empty inline_absent ≡ all has inline_vs_fields
      → is_empty affinity_absent ≡ all has affinity_vs_fields
      → family_of (
          shape_with self inline_absent affinity_absent
            (back_before "VsContextOffset" offset (back_before "VsContext" at [])))
        ≡ expected (is_empty inline_absent) (is_empty affinity_absent) (is_ok at) (is_ok offset)
  shape_with-family [] (name ∷ names) at offset i a = inline-family (name ∷ names) (cc)
  shape_with-family (_ ∷ _) (name ∷ names) at offset i a = refl
  shape_with-family [] [] (ok _) (ok _) i a = refl
  shape_with-family [] [] (ok _) (err _) i a = refl
  shape_with-family [] [] (err _) (ok _) i a = refl
  shape_with-family [] [] (err _) (err _) i a = inline-family [] (cc)
  shape_with-family (_ ∷ _) [] (ok _) (ok _) i a = refl
  shape_with-family (x ∷ xs) [] (ok at) (err _) i a =
      slots-family x xs [] (SlotBackReference.address at) (cc)
  shape_with-family (x ∷ xs) [] (err _) (ok offset) i a =
      slots-family x xs [] (SlotBackReference.displacement offset) (cc)
  shape_with-family (_ ∷ _) [] (err _) (err _) i a = refl

  -- The family of a layout is decided by which fields it has. Both back references of a complete
  -- set of slot fields are refused; with one of them the family is that of the slots, unless the
  -- inline fields are complete too, which is refused; with none, or without the slots' fields, it
  -- is the inline family where its fields are complete, and is refused where they are not.
  pub vs_shape-family :
      family_of (vs_shape self)
      ≡ expected
          (all has inline_vs_fields)
          (all has affinity_vs_fields)
          (has ("_HEAP_VS_AFFINITY_SLOT", "VsContext"))
          (has ("_HEAP_VS_AFFINITY_SLOT", "VsContextOffset"))
  unfolding vs_shape
  vs_shape-family =
      let at = has ("_HEAP_VS_AFFINITY_SLOT", "VsContext") in
      let offset = has ("_HEAP_VS_AFFINITY_SLOT", "VsContextOffset") in
      shape_with-family (absent self inline_vs_fields) (absent self affinity_vs_fields)
        (field self "_HEAP_VS_AFFINITY_SLOT" "VsContext")
        (field self "_HEAP_VS_AFFINITY_SLOT" "VsContextOffset") (absent-all inline_vs_fields)
        (absent-all affinity_vs_fields)
      ∙ ap (λ i. expected i (is_empty (absent self affinity_vs_fields)) at offset)
          (absent-all inline_vs_fields)
      ∙ ap (λ a. expected (all has inline_vs_fields) a at offset) (absent-all affinity_vs_fields)
