-- ===== src/Layout/Resolve/Complete.antt =====
-- A layout that is resolved has every global, type and field that its build must have.
use dbgscope.Base.{
  ℕ, ◌≡◌, refl, Bool, true, List, [], ◌∷◌, all, All, Bool-cases, &&-eq-true, inl, inr,
  if◌then◌else◌, ok, err,
}
use dbgscope.Base.Members.{All-map}
use dbgscope.Base.Effects.{Effect, ◌>>=◌, answer, Holds, resume-Holds, resume-any}
use dbgscope.Base.Maps.{HashMap, get}
use dbgscope.Layout.{
  AllocatorSchema, TypeLayout, LayoutKey, LayoutError, missing, same_name, has_name,
}
use dbgscope.Layout.Tables.{
  TypeSpec, types, optional_types, user_types, optional_fields, user_optional_fields,
  required_globals, optional_globals,
}
use dbgscope.Layout.Resolve.{
  Symbols, insert, required, polled, apply_optional_fields, resolve_globals,
  resolve_optional_globals, resolve_types, resolve_optional_types, resolve, resolve_user,
  user_schema_types, user_optional_types, has_signature,
}
use dbgscope.Layout.Resolve.Fields.{
  Names, HasFields, has_name-insert_self, resolve_globals-Holds, resolve_optional_globals-Holds,
}
use dbgscope.Layout.Resolve.Types.{
  is_fresh, Carries, Frames, Carries-frame, resolve_types-Holds, resolve_optional_types-Holds,
  apply_optional_fields-Holds,
}
use Prim.Native.String.{String}

-- The kernel's layout of a key: the required globals, and every type with its fields.
abbrev pub IsKernelLayout : LayoutKey → AllocatorSchema → Type 0
IsKernelLayout key schema =
    (schema.key ≡ key) × Names required_globals schema.globals × All (Carries schema.types) types

-- The user layout of a key: the global of the heaps, the types that it shares with the kernel, its own,
-- and the signature of a segment heap.
abbrev pub IsUserLayout : LayoutKey → AllocatorSchema → Type 0
IsUserLayout key schema =
    (schema.key ≡ key)
    × (has_name "RtlpHpHeapGlobals" schema.globals ≡ true)
    × All (Carries schema.types) user_schema_types
    × All (Carries schema.types) user_types
    × (has_signature (get same_name "_SEGMENT_HEAP" schema.types) ≡ true)

abbrev all_fresh : List TypeSpec → List TypeSpec → Bool
all_fresh specs later = all (λ spec. is_fresh spec.name later) specs

Carries-Frames :
    (specs later : List TypeSpec) (before after : HashMap String TypeLayout)
    → all_fresh specs later ≡ true
    → Frames later before after
    → All (Carries before) specs
    → All (Carries after) specs
Carries-Frames [] later before after fresh frames h = tt
Carries-Frames (spec ∷ specs) later before after fresh frames h =
    let (first, others) = &&-eq-true (is_fresh spec.name later) (all_fresh specs later) fresh in
    (
      Carries-frame spec before after (frames spec.name first) h.0,
      Carries-Frames specs later before after others frames h.1,
    )

module _ {World : Type 0} (symbols : Symbols World) (key : LayoutKey) where
  -- A kernel layout that is resolved is of the key that it was resolved for, has the two required
  -- globals, and has every type of the table with every field that the table asks of it, whatever the
  -- optional types and fields that were found besides.
  pub resolve-IsKernelLayout : (w : World) → Holds (IsKernelLayout key) (resolve symbols key w)
  unfolding resolve
  resolve-IsKernelLayout w =
      let base = key.image.base in
      let P : AllocatorSchema → Type 0 = IsKernelLayout key in
      let made : HashMap String ℕ
          → HashMap String TypeLayout
          → Effect World LayoutError AllocatorSchema =
        λ globals all_types.
          answer (ok (record { key = key; globals = globals; types = all_types })) in
      let fielded : HashMap String ℕ
          → HashMap String TypeLayout
          → Effect World LayoutError AllocatorSchema =
        λ globals more. apply_optional_fields symbols base optional_fields more >>= made globals in
      let typed : HashMap String ℕ
          → HashMap String TypeLayout
          → Effect World LayoutError AllocatorSchema =
        λ globals first.
          resolve_optional_types symbols base optional_types first >>= fielded globals in
      let rooted : HashMap String ℕ → Effect World LayoutError AllocatorSchema =
        λ globals. resolve_types symbols base types [] >>= typed globals in
      let started : HashMap String ℕ → Effect World LayoutError AllocatorSchema =
        λ globals. resolve_optional_globals symbols optional_globals globals >>= rooted in
      resume-Holds (HasFields symbols required_globals []) P started
        (resolve_globals symbols required_globals [] w)
        (resolve_globals-Holds symbols required_globals [] w)
        (λ globals have w1.
          resume-Holds _ P rooted (resolve_optional_globals symbols optional_globals globals w1)
            (resolve_optional_globals-Holds symbols optional_globals globals w1)
            (λ more keeps w2.
              resume-Holds (λ after. All (Carries after) types × Frames types [] after) P
                (typed more) (resolve_types symbols base types [] w2)
                (resolve_types-Holds symbols base types [] w2 refl)
                (λ first carries w3.
                  resume-Holds (Frames optional_types first) P (fielded more)
                    (resolve_optional_types symbols base optional_types first w3)
                    (resolve_optional_types-Holds symbols base optional_types first w3)
                    (λ second frames w4.
                      resume-Holds
                        (λ after. (spec : TypeSpec) → Carries second spec → Carries after spec) P
                        (made more) (apply_optional_fields symbols base optional_fields second w4)
                        (apply_optional_fields-Holds symbols base optional_fields second w4)
                        (λ last kept w5. (
                          refl,
                          All-map (λ f. has_name f.0 globals ≡ true) (λ f. has_name f.0 more ≡ true)
                              required_globals (λ f h. keeps f.0 h) have.0,
                          All-map (Carries second) (Carries last) types kept (
                              Carries-Frames types optional_types first second refl frames
                                carries.0),
                        ))))))

  signed-IsUserLayout :
      (heap_globals : ℕ) (all_types : HashMap String TypeLayout) (w : World)
      → All (Carries all_types) user_schema_types
      → All (Carries all_types) user_types
      → Holds (IsUserLayout key) (
          (if has_signature (get same_name "_SEGMENT_HEAP" all_types)
              then answer (
                  ok (record {
                    key = key;
                    globals = insert "RtlpHpHeapGlobals" heap_globals [];
                    types = all_types;
                  }))
              else answer (err (missing "_SEGMENT_HEAP.Signature")))
            w)
  signed-IsUserLayout heap_globals all_types w shared own =
      elim (Bool-cases (has_signature (get same_name "_SEGMENT_HEAP" all_types))) [
        | inl signed ↦
            rw (Holds, signed)
              (refl, has_name-insert_self "RtlpHpHeapGlobals" heap_globals [], shared, own, signed)
        | inr unsigned ↦ rw (Holds, unsigned) tt
      ]

  -- A user layout that is resolved is of the key that it was resolved for, has the global of the
  -- heaps, has every type that it shares with the kernel and every type of its own with every field
  -- that the tables ask of it, and has the signature of a segment heap.
  pub resolve_user-IsUserLayout :
      (w : World) → Holds (IsUserLayout key) (resolve_user symbols key w)
  unfolding resolve_user
  resolve_user-IsUserLayout w =
      let base = key.image.base in
      let P : AllocatorSchema → Type 0 = IsUserLayout key in
      let made : ℕ → HashMap String TypeLayout → Effect World LayoutError AllocatorSchema =
        λ heap_globals all_types.
          if has_signature (get same_name "_SEGMENT_HEAP" all_types)
          then answer (
              ok (record {
                key = key;
                globals = insert "RtlpHpHeapGlobals" heap_globals [];
                types = all_types;
              }))
          else answer (err (missing "_SEGMENT_HEAP.Signature")) in
      let more : ℕ → HashMap String TypeLayout → Effect World LayoutError AllocatorSchema =
        λ heap_globals some_fields.
          apply_optional_fields symbols base user_optional_fields some_fields
          >>= made heap_globals in
      let fielded : ℕ → HashMap String TypeLayout → Effect World LayoutError AllocatorSchema =
        λ heap_globals more_types.
          apply_optional_fields symbols base optional_fields more_types >>= more heap_globals in
      let typed : ℕ → HashMap String TypeLayout → Effect World LayoutError AllocatorSchema =
        λ heap_globals own.
          resolve_optional_types symbols base user_optional_types own >>= fielded heap_globals in
      let owned : ℕ → HashMap String TypeLayout → Effect World LayoutError AllocatorSchema =
        λ heap_globals shared.
          resolve_types symbols base user_types shared >>= typed heap_globals in
      let started : ℕ → Effect World LayoutError AllocatorSchema =
        λ heap_globals. resolve_types symbols base user_schema_types [] >>= owned heap_globals in
      resume-any P (λ value. required "RtlpHpHeapGlobals" value >>= started)
        (polled symbols (symbols.symbol "ntdll!RtlpHpHeapGlobals") w)
        (λ value w1.
          resume-any P started (required "RtlpHpHeapGlobals" value w1) (λ heap_globals w2.
            resume-Holds
              (λ after. All (Carries after) user_schema_types × Frames user_schema_types [] after) P
              (owned heap_globals) (resolve_types symbols base user_schema_types [] w2)
              (resolve_types-Holds symbols base user_schema_types [] w2 refl)
              (λ shared carries w3.
                resume-Holds
                  (λ after. All (Carries after) user_types × Frames user_types shared after) P
                  (typed heap_globals) (resolve_types symbols base user_types shared w3)
                  (resolve_types-Holds symbols base user_types shared w3 refl)
                  (λ own mine w4.
                    resume-Holds (Frames user_optional_types own) P (fielded heap_globals)
                      (resolve_optional_types symbols base user_optional_types own w4)
                      (resolve_optional_types-Holds symbols base user_optional_types own w4)
                      (λ second frames w5.
                        resume-Holds
                          (λ after. (spec : TypeSpec) → Carries second spec → Carries after spec) P
                          (more heap_globals)
                          (apply_optional_fields symbols base optional_fields second w5)
                          (apply_optional_fields-Holds symbols base optional_fields second w5)
                          (λ third kept w6.
                            resume-Holds
                              (λ after. (spec : TypeSpec) → Carries third spec → Carries after spec)
                              P (made heap_globals)
                              (apply_optional_fields symbols base user_optional_fields third w6)
                              (apply_optional_fields-Holds symbols base user_optional_fields third
                                w6)
                              (λ last held w7.
                                signed-IsUserLayout heap_globals last w7
                                  (All-map (Carries second) (Carries last) user_schema_types
                                    (λ spec h. held spec (kept spec h))
                                    (Carries-Frames user_schema_types user_optional_types own second
                                      refl frames
                                      (Carries-Frames user_schema_types user_types shared own refl
                                        mine.1 carries.0)))
                                  (All-map (Carries second) (Carries last) user_types
                                    (λ spec h. held spec (kept spec h))
                                    (Carries-Frames user_types user_optional_types own second refl
                                      frames mine.0)))))))))
