-- ===== src/Layout/Resolve/Types.antt =====
-- The types that are resolved keep what they have, whatever optional ones come after them.
use dbgscope.Base.{
  arith, ℕ, ◌≡◌, refl, sym, subst, ◌∙◌, Bool, true, not, ◌&&◌, Bool-cases, &&-eq-true, inl, inr,
  Option, none, some, some_inj, List, [], ◌∷◌, all, All, Result, ok, err,
}
use dbgscope.Base.Members.{All-map}
use dbgscope.Base.Effects.{Effect, Holds, resume-Holds, resume-any, Holds-map}
use dbgscope.Base.Maps.{HashMap, get, get-write_entry_self, get-write_entry_other}
use dbgscope.Layout.{
  TypeLayout, LayoutError, missing, unsupported, interrupted, budget_expired, poll_failed,
  same_name, has_name,
}
use dbgscope.Layout.Tables.{FieldSpec, TypeSpec}
use dbgscope.Layout.Resolve.{
  Symbols, insert, insert_field, with_field, optional_field, apply_optional_fields, resolve_type,
  resolve_types, tolerate, resolve_optional_types,
}
use dbgscope.Layout.Resolve.Fields.{
  same_name-IsSame, has_name-insert, HasLayout, resolve_type-Holds,
}
use Prim.Native.String.{String}

-- Every type has a name of its own, and none of the names of a later table.
abbrev pub is_fresh : String → List TypeSpec → Bool
is_fresh name specs = all (λ spec. not (same_name name spec.name)) specs

abbrev pub are_distinct : List TypeSpec → Bool
are_distinct [] = true
are_distinct (spec ∷ specs) = is_fresh spec.name specs && are_distinct specs

-- A type that is resolved, with its fields.
abbrev pub Carries : HashMap String TypeLayout → TypeSpec → Type 0
Carries map spec =
    (layout : TypeLayout) × (get same_name spec.name map ≡ some layout)
    × All (λ field_spec. has_name field_spec.0 layout.fields ≡ true) spec.fields

-- The types that are not among the names keep what they have.
abbrev pub Frames : List TypeSpec → HashMap String TypeLayout → HashMap String TypeLayout → Type 0
Frames specs before after =
    (name : String)
    → is_fresh name specs ≡ true
    → get same_name name after ≡ get same_name name before

pub Carries-frame :
    (spec : TypeSpec) (before after : HashMap String TypeLayout)
    → get same_name spec.name after ≡ get same_name spec.name before
    → Carries before spec
    → Carries after spec
Carries-frame spec before after e (layout, at, names) = (layout, e ∙ at, names)

get-insert_other :
    (n name : String) (layout : TypeLayout) (map : HashMap String TypeLayout)
    → not (same_name n name) ≡ true
    → get same_name n (insert name layout map) ≡ get same_name n map
get-insert_other n name layout map h =
    get-write_entry_other same_name same_name-IsSame n name (λ _. layout) map (ground arith)

module _ {World : Type 0} (symbols : Symbols World) where
  pub resolve_types-Holds :
      (base : ℕ) (specs : List TypeSpec) (map : HashMap String TypeLayout) (w : World)
      → are_distinct specs ≡ true
      → Holds
          (λ after. All (Carries after) specs × Frames specs map after)
          (resolve_types symbols base specs map w)
  unfolding resolve_types
  resolve_types-Holds base [] map w d = (tt, λ n h. refl)
  resolve_types-Holds base (spec ∷ specs) map w d =
      let (fresh, distinct) = &&-eq-true (is_fresh spec.name specs) (are_distinct specs) d in
      let Q : HashMap String TypeLayout → Type 0 =
        λ after. All (Carries after) (spec ∷ specs) × Frames (spec ∷ specs) map after in
      let rest : TypeLayout → Effect World LayoutError (HashMap String TypeLayout) =
        λ layout. resolve_types symbols base specs (insert spec.name layout map) in
      resume-Holds (HasLayout symbols spec) Q rest (resolve_type symbols base spec w)
        (resolve_type-Holds symbols base spec w)
        (λ layout names w1.
          Holds-map
            (λ after. All (Carries after) specs × Frames specs (insert spec.name layout map) after)
            Q (rest layout w1)
            (λ after h. (
              (
                (
                  layout,
                  h.1 spec.name fresh
                      ∙ get-write_entry_self same_name same_name-IsSame spec.name (λ _. layout) map,
                  names,
                ),
                h.0,
              ),
              λ n k.
                  let (other, free) =
                    &&-eq-true (not (same_name n spec.name)) (is_fresh n specs) k in
                  h.1 n free ∙ get-insert_other n spec.name layout map other,
            ))
            (resolve_types-Holds base specs (insert spec.name layout map) w1 distinct))

  tolerate-Holds :
      (spec : TypeSpec) (map : HashMap String TypeLayout)
      (resolved : World × Result TypeLayout LayoutError)
      → Holds (Frames (spec ∷ []) map) (tolerate symbols spec.name map resolved)
  tolerate-Holds spec map (w, ok layout) = λ n h.
      get-insert_other n spec.name layout map (&&-eq-true (not (same_name n spec.name)) true h).0
  tolerate-Holds spec map (w, err (missing item)) = λ n h. refl
  tolerate-Holds spec map (w, err (unsupported fingerprint detail)) = tt
  tolerate-Holds spec map (w, err interrupted) = tt
  tolerate-Holds spec map (w, err budget_expired) = tt
  tolerate-Holds spec map (w, err (poll_failed detail)) = tt

  pub resolve_optional_types-Holds :
      (base : ℕ) (specs : List TypeSpec) (map : HashMap String TypeLayout) (w : World)
      → Holds (Frames specs map) (resolve_optional_types symbols base specs map w)
  unfolding resolve_optional_types
  resolve_optional_types-Holds base [] map w = λ n h. refl
  resolve_optional_types-Holds base (spec ∷ specs) map w =
      let rest : HashMap String TypeLayout → Effect World LayoutError (HashMap String TypeLayout) =
        resolve_optional_types symbols base specs in
      resume-Holds (Frames (spec ∷ []) map) (Frames (spec ∷ specs) map) rest
        (tolerate symbols spec.name map (resolve_type symbols base spec w))
        (tolerate-Holds spec map (resolve_type symbols base spec w))
        (λ next first w1.
          Holds-map (Frames specs next) (Frames (spec ∷ specs) map) (rest next w1)
            (λ after h n k.
              let (other, free) = &&-eq-true (not (same_name n spec.name)) (is_fresh n specs) k in
              h n free ∙ first n (ground arith))
            (resolve_optional_types-Holds base specs next w1))

  insert_field-Carries :
      (type_name canonical : String) (offset : ℕ) (map : HashMap String TypeLayout)
      (spec : TypeSpec)
      → Carries map spec
      → Carries (insert_field type_name canonical offset map) spec
  insert_field-Carries type_name canonical offset [] spec (layout, at, names) = (layout, at, names)
  insert_field-Carries type_name canonical offset ((name, held) ∷ map) spec (layout, at, names) =
      elim (Bool-cases (same_name type_name name)) [
        | inl hit ↦
            rw (Carries, hit)
              (elim (Bool-cases (same_name spec.name name)) [
                | inl mine ↦
                    let same : layout ≡ held = some_inj (sym at ∙ rw mine) in
                    (
                      record held { fields = insert canonical offset held.fields },
                      rw mine,
                      All-map (λ f. has_name f.0 layout.fields ≡ true)
                          (λ f. has_name f.0 (insert canonical offset held.fields) ≡ true)
                          spec.fields
                          (λ f h.
                            has_name-insert f.0 canonical offset held.fields
                              (subst (λ l. has_name f.0 l.fields ≡ true) same h))
                          names,
                    )
                | inr other ↦
                    (layout, (rw other (subst (λ x. x ≡ some layout) (rw other) at)), names)
              ])
        | inr miss ↦
            rw (Carries, miss)
              (elim (Bool-cases (same_name spec.name name)) [
                | inl mine ↦ (layout, (rw mine (subst (λ x. x ≡ some layout) (rw mine) at)), names)
                | inr other ↦ rw other (
                    insert_field-Carries type_name canonical offset map spec
                      (layout, (subst (λ x. x ≡ some layout) (rw other) at), names))
              ])
      ]

  with_field-Carries :
      (type_name canonical : String) (map : HashMap String TypeLayout) (value : Option ℕ)
      (spec : TypeSpec)
      → Carries map spec
      → Carries (with_field type_name canonical map value) spec
  with_field-Carries type_name canonical map none spec h = h
  with_field-Carries type_name canonical map (some offset) spec h =
      insert_field-Carries type_name canonical offset map spec h

  pub apply_optional_fields-Holds :
      (base : ℕ) (table : List (String × FieldSpec)) (map : HashMap String TypeLayout) (w : World)
      → Holds
          (λ after. (spec : TypeSpec) → Carries map spec → Carries after spec)
          (apply_optional_fields symbols base table map w)
  unfolding apply_optional_fields
  apply_optional_fields-Holds base [] map w = λ spec h. h
  apply_optional_fields-Holds base ((type_name, (canonical, aliases)) ∷ table) map w =
      let rest : Option ℕ → Effect World LayoutError (HashMap String TypeLayout) = λ offset.
        apply_optional_fields symbols base table (with_field type_name canonical map offset) in
      resume-any (λ after. (spec : TypeSpec) → Carries map spec → Carries after spec) rest
        (optional_field symbols base type_name aliases (has_name type_name map) w)
        (λ offset w1.
          Holds-map
            (λ after.
              (spec : TypeSpec)
              → Carries (with_field type_name canonical map offset) spec
              → Carries after spec)
            (λ after. (spec : TypeSpec) → Carries map spec → Carries after spec) (rest offset w1)
            (λ after h spec k. h spec (with_field-Carries type_name canonical map offset spec k))
            (apply_optional_fields-Holds base table (with_field type_name canonical map offset) w1))
