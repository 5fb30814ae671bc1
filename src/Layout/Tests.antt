-- ===== src/Layout/Tests.antt =====
-- A debugger that knows every name, and the layouts that it resolves.
use dbgscope.Base.{ℕ, suc, ◌≡◌, refl, none, some, [], ◌∷◌, all, Result, ok, err}
use dbgscope.Base.Effects.{Holds}
use dbgscope.Layout.{AllocatorSchema, LayoutKey, LayoutError, missing}
use dbgscope.Layout.Tables.{inline_vs_fields, affinity_vs_fields}
use dbgscope.Layout.Shapes.{vs_shape}
use dbgscope.Layout.Shapes.Families.{family_of, expected, has, vs_shape-family}
use dbgscope.Layout.Resolve.{
  Symbols, polled, first_available, resolve_fields, resolve_type, apply_optional_fields,
  resolve_globals, resolve_optional_globals, resolve_types, resolve_optional_types, resolve,
}
use dbgscope.Layout.Resolve.Complete.{IsKernelLayout, resolve-IsKernelLayout}
use dbgscope.Layout.Resolve.Cache.{kernel, probe_type, get_or_resolve}
use dbgscope.Layout.Resolve.Cache.Hits.{
  IsServed, IsSound, get_or_resolve-IsSound, get_or_resolve-again,
}

-- The world counts the polls.
abbrev all_known : Symbols ℕ
all_known = record {
  poll = λ w. (suc w, ok tt);
  symbol = λ name w. (w, some 0x1000);
  type_id = λ base name w. (w, some 7);
  type_size = λ base id w. (w, some 0x40);
  field = λ base id name w. (w, some 8);
}

-- A debugger that has lost the image's types.
abbrev types_lost : Symbols ℕ
types_lost = record all_known { type_id = λ base name w. (w, none) }

abbrev some_key : LayoutKey
some_key = record {
  image = record { base = 0x1000; size = 1; timestamp = 2; checksum = 3 };
  session = 4;
}

-- A layout of the inline family.
abbrev inline_layout : AllocatorSchema
inline_layout = record {
  key = some_key;
  globals = [];
  types =
      (
        "_HEAP_VS_CONTEXT",
        record { size = 8; fields = ("FreeChunkTree", 0) ∷ ("DelayFreeContext", 8) ∷ [] },
      )
      ∷ [];
}

vs_shape-family_example :
    family_of (vs_shape inline_layout)
    ≡ expected
        (all (has inline_layout) inline_vs_fields)
        (all (has inline_layout) affinity_vs_fields)
        (has inline_layout ("_HEAP_VS_AFFINITY_SLOT", "VsContext"))
        (has inline_layout ("_HEAP_VS_AFFINITY_SLOT", "VsContextOffset"))
vs_shape-family_example = vs_shape-family inline_layout

resolve-IsKernelLayout_example : Holds (IsKernelLayout some_key) (resolve all_known some_key 0)
resolve-IsKernelLayout_example = resolve-IsKernelLayout all_known some_key 0

get_or_resolve-IsSound_example :
    IsServed (kernel, some_key) (get_or_resolve all_known some_key kernel [] 0).2
    × IsSound (get_or_resolve all_known some_key kernel [] 0).0
get_or_resolve-IsSound_example = get_or_resolve-IsSound all_known some_key kernel [] 0 tt

abbrev layout_or : AllocatorSchema → Result AllocatorSchema LayoutError → AllocatorSchema
layout_or other (ok layout) = layout
layout_or other (err e) = other

abbrev resolved_layout : AllocatorSchema
resolved_layout = layout_or inline_layout (get_or_resolve all_known some_key kernel [] 0).2

kernel_is_resolved : (get_or_resolve all_known some_key kernel [] 0).2 ≡ ok resolved_layout
unfolding get_or_resolve polled resolve resolve_globals resolve_optional_globals resolve_types
    resolve_optional_types resolve_type resolve_fields apply_optional_fields first_available
    probe_type
kernel_is_resolved = refl

probe_fails : polled types_lost (types_lost.type_id 0x1000 (probe_type kernel)) 0 ≡ (2, ok none)
unfolding polled
probe_fails = refl

get_or_resolve-again_example :
    get_or_resolve types_lost some_key kernel (get_or_resolve all_known some_key kernel [] 0).0 0
    ≡ ((get_or_resolve all_known some_key kernel [] 0).0, 2, err (missing (probe_type kernel)))
get_or_resolve-again_example =
    get_or_resolve-again all_known types_lost some_key kernel [] 0 0 2 resolved_layout none
      kernel_is_resolved probe_fails
