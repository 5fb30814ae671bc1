-- ===== src/Layout/Resolve/Fields.antt =====
-- The globals and the fields of a type that are resolved are those that were asked for.
use dbgscope.Base.{
  ℕ, ◌≡◌, refl, true, false, Bool-cases, inl, inr, Option, none, some, List, [], ◌∷◌, All, ok,
}
use dbgscope.Base.Effects.{Effect, ◌>>=◌, answer, Holds, resume-Holds, resume-any, Holds-map}
use dbgscope.Base.Maps.{HashMap, IsSame, get-write_entry_self, get-write_entry_other}
use dbgscope.Layout.{TypeLayout, LayoutError, same_name, has_name, dotted}
use dbgscope.Layout.Tables.{FieldSpec, TypeSpec}
use dbgscope.Layout.Resolve.{
  Symbols, insert, required, polled, first_available, resolve_fields, resolve_type, resolve_globals,
  with_global, resolve_optional_globals,
}
use Prim.Native.String.{String, compare}
use Prim.Native.Nat.{Ordering}
use text.Mathlib.TextEquality.{path_by_compare}
use text.Mathlib.TextPositions.{compare_refl}

same_by_compare :
    (a b : String) (o : Ordering)
    → compare a b ≡ o
    → (elim o [ Ordering.eq ↦ true | _ ↦ false ]) ≡ true
    → a ≡ b
same_by_compare a b Ordering.eq e h = path_by_compare a b e
same_by_compare a b Ordering.lt e h = absurd (cc)
same_by_compare a b Ordering.gt e h = absurd (cc)

pub same_name-IsSame : IsSame same_name
same_name-IsSame = record {
  sound = λ a b h. same_by_compare a b (compare a b) refl h;
  complete = λ a. rw (same_name, compare_refl a);
}

module _ {V : Type 0} where
  pub has_name-insert_self :
      (name : String) (v : V) (map : HashMap String V) → has_name name (insert name v map) ≡ true
  has_name-insert_self name v map =
      rw (has_name, get-write_entry_self same_name same_name-IsSame name (λ _. v) map)

  pub has_name-insert :
      (n name : String) (v : V) (map : HashMap String V)
      → has_name n map ≡ true
      → has_name n (insert name v map) ≡ true
  has_name-insert n name v map h = elim (Bool-cases (same_name n name)) [
    | inl e ↦ rw (same_name-IsSame.sound n name e) (has_name-insert_self name v map)
    | inr e ↦
        rw (has_name, get-write_entry_other same_name same_name-IsSame n name (λ _. v) map e) h
  ]

-- Each of the names is present.
abbrev pub Names : {V : Type 0} → List FieldSpec → HashMap String V → Type 0
Names specs map = All (λ spec. has_name spec.0 map ≡ true) specs

abbrev pub KeepsNames : {V : Type 0} → HashMap String V → HashMap String V → Type 0
KeepsNames before after = (name : String) → has_name name before ≡ true → has_name name after ≡ true

module _ {World : Type 0} (symbols : Symbols World) where
  -- The fields of a type are there once they are resolved.
  abbrev pub HasFields : List FieldSpec → HashMap String ℕ → HashMap String ℕ → Type 0
  HasFields specs before after = Names specs after × KeepsNames before after

  resolve_fields-Holds :
      (base id : ℕ) (name : String) (specs : List FieldSpec) (fields : HashMap String ℕ) (w : World)
      → Holds (HasFields specs fields) (resolve_fields symbols base id name specs fields w)
  unfolding resolve_fields
  resolve_fields-Holds base id name [] fields w = (tt, λ n h. h)
  resolve_fields-Holds base id name ((canonical, aliases) ∷ specs) fields w =
      let Q : HashMap String ℕ → Type 0 = HasFields ((canonical, aliases) ∷ specs) fields in
      let rest : ℕ → Effect World LayoutError (HashMap String ℕ) =
        λ offset. resolve_fields symbols base id name specs (insert canonical offset fields) in
      resume-any Q (λ value. required (dotted name canonical) value >>= rest)
        (first_available symbols aliases (symbols.field base id) w)
        (λ value w1. resume-any Q rest (required (dotted name canonical) value w1) (λ offset w2.
          Holds-map (HasFields specs (insert canonical offset fields)) Q (rest offset w2)
            (λ m h. (
              (h.1 canonical (has_name-insert_self canonical offset fields), h.0),
              λ n k. h.1 n (has_name-insert n canonical offset fields k),
            ))
            (resolve_fields-Holds base id name specs (insert canonical offset fields) w2)))

  abbrev pub HasLayout : TypeSpec → TypeLayout → Type 0
  HasLayout spec layout = Names spec.fields layout.fields

  pub resolve_type-Holds :
      (base : ℕ) (spec : TypeSpec) (w : World)
      → Holds (HasLayout spec) (resolve_type symbols base spec w)
  unfolding resolve_type
  resolve_type-Holds base spec w =
      let made : ℕ → HashMap String ℕ → Effect World LayoutError TypeLayout =
        λ size fields. answer (ok (record { size = size; fields = fields })) in
      let sized : ℕ → ℕ → Effect World LayoutError TypeLayout =
        λ id size. resolve_fields symbols base id spec.name spec.fields [] >>= made size in
      let measured : ℕ → Option ℕ → Effect World LayoutError TypeLayout =
        λ id value. required spec.name value >>= sized id in
      let known : ℕ → Effect World LayoutError TypeLayout =
        λ id. polled symbols (symbols.type_size base id) >>= measured id in
      let P : TypeLayout → Type 0 = HasLayout spec in
      resume-any P (λ value. required spec.name value >>= known)
        (polled symbols (symbols.type_id base spec.name) w)
        (λ value w1. resume-any P known (required spec.name value w1) (λ id w2.
          resume-any P (measured id) (polled symbols (symbols.type_size base id) w2)
            (λ size_value w3. resume-any P (sized id) (required spec.name size_value w3) (λ size w4.
              resume-Holds (HasFields spec.fields []) P (made size)
                (resolve_fields symbols base id spec.name spec.fields [] w4)
                (resolve_fields-Holds base id spec.name spec.fields [] w4) (λ fields h w5. h.0)))))

  pub resolve_globals-Holds :
      (specs : List FieldSpec) (globals : HashMap String ℕ) (w : World)
      → Holds (HasFields specs globals) (resolve_globals symbols specs globals w)
  unfolding resolve_globals
  resolve_globals-Holds [] globals w = (tt, λ n h. h)
  resolve_globals-Holds ((canonical, aliases) ∷ specs) globals w =
      let Q : HashMap String ℕ → Type 0 = HasFields ((canonical, aliases) ∷ specs) globals in
      let rest : ℕ → Effect World LayoutError (HashMap String ℕ) =
        λ address. resolve_globals symbols specs (insert canonical address globals) in
      resume-any Q (λ value. required canonical value >>= rest)
        (first_available symbols aliases symbols.symbol w)
        (λ value w1. resume-any Q rest (required canonical value w1) (λ address w2.
          Holds-map (HasFields specs (insert canonical address globals)) Q (rest address w2)
            (λ m h. (
              (h.1 canonical (has_name-insert_self canonical address globals), h.0),
              λ n k. h.1 n (has_name-insert n canonical address globals k),
            ))
            (resolve_globals-Holds specs (insert canonical address globals) w2)))

  with_global-keeps :
      (canonical : String) (globals : HashMap String ℕ) (value : Option ℕ)
      → KeepsNames globals (with_global canonical globals value)
  with_global-keeps canonical globals none n h = h
  with_global-keeps canonical globals (some address) n h =
      has_name-insert n canonical address globals h

  pub resolve_optional_globals-Holds :
      (specs : List FieldSpec) (globals : HashMap String ℕ) (w : World)
      → Holds (KeepsNames globals) (resolve_optional_globals symbols specs globals w)
  unfolding resolve_optional_globals
  resolve_optional_globals-Holds [] globals w = λ n h. h
  resolve_optional_globals-Holds ((canonical, aliases) ∷ specs) globals w =
      let rest : Option ℕ → Effect World LayoutError (HashMap String ℕ) =
        λ value. resolve_optional_globals symbols specs (with_global canonical globals value) in
      resume-any (KeepsNames globals) rest (first_available symbols aliases symbols.symbol w)
        (λ value w1.
          Holds-map (KeepsNames (with_global canonical globals value)) (KeepsNames globals)
            (rest value w1) (λ m h n k. h n (with_global-keeps canonical globals value n k))
            (resolve_optional_globals-Holds specs (with_global canonical globals value) w1))
