-- ===== src/Layout/Tables.antt =====
-- src/pool/layout.rs: the tables of the types, fields and symbols that a layout is resolved from.
use dbgscope.Base.{List, [], ◌∷◌}
use Prim.Native.String.{String}

-- A field under the name that the program gives it, and the names that builds give it.
abbrev pub FieldSpec : Type 0
FieldSpec = String × List String

pub record TypeSpec : Type 0 where
  pub name : String
  pub fields : List FieldSpec

-- `TYPES`.
abbrev pub types : List TypeSpec
types =
    record {
      name = "_EX_POOL_HEAP_MANAGER_STATE";
      fields =
          ("PoolNode", ("PoolNode" ∷ "PoolNodes" ∷ []))
          ∷ ("NumberOfPools", ("NumberOfPools" ∷ []))
          ∷ ("SpecialHeaps", ("SpecialHeaps" ∷ []))
          ∷ [];
    }
    ∷ record { name = "_EX_HEAP_POOL_NODE"; fields = ("Heaps", ("Heaps" ∷ [])) ∷ [] }
    ∷ record {
      name = "_SEGMENT_HEAP";
      fields =
          ("SegContexts", ("SegContexts" ∷ "SegmentContexts" ∷ []))
          ∷ ("VsContext", ("VsContext" ∷ []))
          ∷ ("LfhContext", ("LfhContext" ∷ []))
          ∷ [];
    }
    ∷ record {
      name = "_HEAP_SEG_CONTEXT";
      fields =
          ("SegmentListHead", ("SegmentListHead" ∷ []))
          ∷ ("FreePageRanges", ("FreePageRanges" ∷ "FreePageRangeTree" ∷ []))
          ∷ ("UnitShift", ("UnitShift" ∷ []))
          ∷ ("FirstDescriptorIndex", ("FirstDescriptorIndex" ∷ []))
          ∷ ("SegmentMask", ("SegmentMask" ∷ []))
          ∷ [];
    }
    ∷ record {
      name = "_HEAP_PAGE_SEGMENT";
      fields =
          ("ListEntry", ("ListEntry" ∷ []))
          ∷ ("DescArray", ("DescArray" ∷ "Descriptors" ∷ []))
          ∷ ("Signature", ("Signature" ∷ []))
          ∷ [];
    }
    ∷ record {
      name = "_HEAP_PAGE_RANGE_DESCRIPTOR";
      fields =
          ("UnitSize", ("UnitSize" ∷ []))
          ∷ ("RangeFlags", ("RangeFlags" ∷ "Flags" ∷ []))
          ∷ ("TreeNode", ("TreeNode" ∷ []))
          ∷ ("TreeSignature", ("TreeSignature" ∷ []))
          ∷ [];
    }
    ∷ record { name = "_HEAP_VS_CONTEXT"; fields = [] }
    ∷ record { name = "_HEAP_VS_DELAY_FREE_CONTEXT"; fields = ("ListHead", ("ListHead" ∷ [])) ∷ [] }
    ∷ record {
      name = "_HEAP_VS_SUBSEGMENT";
      fields = ("Size", ("Size" ∷ [])) ∷ ("Signature", ("Signature" ∷ [])) ∷ [];
    }
    ∷ record {
      name = "_HEAP_VS_CHUNK_HEADER";
      fields = ("Sizes", ("Sizes" ∷ "HeaderBits" ∷ [])) ∷ [];
    }
    ∷ record {
      name = "_HEAP_VS_CHUNK_FREE_HEADER";
      fields = ("TreeNode", ("TreeNode" ∷ "Node" ∷ [])) ∷ [];
    }
    ∷ record { name = "_HEAP_LFH_CONTEXT"; fields = ("Buckets", ("Buckets" ∷ [])) ∷ [] }
    ∷ record {
      name = "_HEAP_LFH_SUBSEGMENT";
      fields =
          ("BlockOffsets", ("BlockOffsets" ∷ []))
          ∷ ("BlockBitmap", ("BlockBitmap" ∷ []))
          ∷ ("BlockCount", ("BlockCount" ∷ []))
          ∷ [];
    }
    ∷ record {
      name = "_HEAP_LFH_SUBSEGMENT_ENCODED_OFFSETS";
      fields = ("EncodedData", ("EncodedData" ∷ [])) ∷ [];
    }
    ∷ record {
      name = "_RTLP_HP_HEAP_GLOBALS";
      fields = ("HeapKey", ("HeapKey" ∷ [])) ∷ ("LfhKey", ("LfhKey" ∷ [])) ∷ [];
    }
    ∷ record { name = "_RTL_RB_TREE"; fields = ("Root", ("Root" ∷ "EncodedRoot" ∷ [])) ∷ [] }
    ∷ record {
      name = "_RTL_BALANCED_NODE";
      fields = ("Left", ("Left" ∷ [])) ∷ ("Right", ("Right" ∷ [])) ∷ [];
    }
    ∷ record {
      name = "_POOL_HEADER";
      fields =
          ("PreviousSize", ("PreviousSize" ∷ []))
          ∷ ("PoolIndex", ("PoolIndex" ∷ []))
          ∷ ("BlockSize", ("BlockSize" ∷ []))
          ∷ ("PoolType", ("PoolType" ∷ []))
          ∷ ("PoolTag", ("PoolTag" ∷ []))
          ∷ [];
    }
    ∷ record {
      name = "_SLIST_HEADER";
      fields = ("Alignment", ("Alignment" ∷ [])) ∷ ("Region", ("Region" ∷ [])) ∷ [];
    }
    ∷ []

-- `OPTIONAL_TYPES`.
abbrev pub optional_types : List TypeSpec
optional_types =
    record {
      name = "_HEAP_VS_AFFINITY_SLOT";
      fields =
          ("FreeChunkTree", ("FreeChunkTree" ∷ []))
          ∷ ("DelayFreeContext", ("DelayFreeContext" ∷ []))
          ∷ [];
    }
    ∷ record { name = "_HEAP_VS_SLOT_MAP"; fields = ("SlotRef", ("SlotRef" ∷ [])) ∷ [] }
    ∷ record {
      name = "_RTL_DYNAMIC_LOOKASIDE";
      fields = ("BucketCount", ("BucketCount" ∷ [])) ∷ ("Buckets", ("Buckets" ∷ [])) ∷ [];
    }
    ∷ record { name = "_RTL_LOOKASIDE"; fields = ("ListHead", ("ListHead" ∷ [])) ∷ [] }
    ∷ record {
      name = "_POOL_TRACKER_BIG_PAGES";
      fields =
          ("Va", ("Va" ∷ []))
          ∷ ("Key", ("Key" ∷ "PoolTag" ∷ []))
          ∷ ("NumberOfBytes", ("NumberOfBytes" ∷ "Size" ∷ []))
          ∷ [];
    }
    ∷ record {
      name = "_HEAP_LARGE_ALLOC_DATA";
      fields =
          ("TreeNode", ("TreeNode" ∷ []))
          ∷ ("VirtualAddress", ("VirtualAddress" ∷ "Address" ∷ []))
          ∷ ("AllocatedPages", ("AllocatedPages" ∷ "NumberOfPages" ∷ []))
          ∷ [];
    }
    ∷ []

-- `USER_TYPES`.
abbrev pub user_types : List TypeSpec
user_types =
    record {
      name = "_PEB";
      fields =
          ("NumberOfHeaps", ("NumberOfHeaps" ∷ [])) ∷ ("ProcessHeaps", ("ProcessHeaps" ∷ [])) ∷ [];
    }
    ∷ record { name = "_HEAP"; fields = ("Signature", ("Signature" ∷ [])) ∷ [] }
    ∷ []

-- `OPTIONAL_FIELDS`.
abbrev pub optional_fields : List (String × FieldSpec)
optional_fields =
    ("_SEGMENT_HEAP", ("Signature", ("Signature" ∷ [])))
    ∷ ("_EX_HEAP_POOL_NODE", ("Lookasides", ("Lookasides" ∷ [])))
    ∷ ("_RTL_RB_TREE", ("Encoded", ("Encoded" ∷ [])))
    ∷ ("_SEGMENT_HEAP", ("LargeAllocMetadata", ("LargeAllocMetadata" ∷ [])))
    ∷ ("_HEAP_LFH_CONTEXT", ("AffinitySlots", ("AffinitySlots" ∷ "AffinitizedInfoArrays" ∷ [])))
    ∷ ("_RTL_LOOKASIDE", ("Size", ("Size" ∷ "SizeClass" ∷ [])))
    ∷ ("_HEAP_VS_CONTEXT", ("FreeChunkTree", ("FreeChunkTree" ∷ [])))
    ∷ ("_HEAP_VS_CONTEXT", ("DelayFreeContext", ("DelayFreeContext" ∷ [])))
    ∷ ("_HEAP_VS_CONTEXT", ("SlotMapRef", ("SlotMapRef" ∷ [])))
    ∷ ("_HEAP_VS_CONTEXT", ("AffinityMask", ("AffinityMask" ∷ [])))
    ∷ ("_HEAP_VS_CONTEXT", ("Config", ("Config" ∷ [])))
    ∷ ("_HEAP_VS_AFFINITY_SLOT", ("VsContext", ("VsContext" ∷ [])))
    ∷ ("_HEAP_VS_AFFINITY_SLOT", ("VsContextOffset", ("VsContextOffset" ∷ [])))
    ∷ ("_HEAP_LARGE_ALLOC_DATA", ("UnusedBytes", ("UnusedBytes" ∷ [])))
    ∷ []

-- `USER_OPTIONAL_FIELDS`.
abbrev pub user_optional_fields : List (String × FieldSpec)
user_optional_fields =
    ("_SEGMENT_HEAP", ("UserContext", ("UserContext" ∷ [])))
    ∷ ("_HEAP", ("UserContext", ("UserContext" ∷ [])))
    ∷ []

-- `GLOBALS`.
abbrev pub required_globals : List FieldSpec
required_globals =
    ("ExPoolState", ("nt!ExPoolState" ∷ []))
    ∷ ("RtlpHpHeapGlobals", ("nt!RtlpHpHeapGlobals" ∷ []))
    ∷ []

-- `OPTIONAL_GLOBALS`.
abbrev pub optional_globals : List FieldSpec
optional_globals =
    ("PoolBigPageTable", ("nt!PoolBigPageTable" ∷ []))
    ∷ ("PoolBigPageTableSize", ("nt!PoolBigPageTableSize" ∷ []))
    ∷ []

-- `INLINE_VS_FIELDS`.
abbrev pub inline_vs_fields : List (String × String)
inline_vs_fields =
    ("_HEAP_VS_CONTEXT", "FreeChunkTree") ∷ ("_HEAP_VS_CONTEXT", "DelayFreeContext") ∷ []

-- `AFFINITY_VS_FIELDS`.
abbrev pub affinity_vs_fields : List (String × String)
affinity_vs_fields =
    ("_HEAP_VS_CONTEXT", "SlotMapRef")
    ∷ ("_HEAP_VS_CONTEXT", "AffinityMask")
    ∷ ("_HEAP_VS_AFFINITY_SLOT", "FreeChunkTree")
    ∷ ("_HEAP_VS_AFFINITY_SLOT", "DelayFreeContext")
    ∷ ("_HEAP_VS_SLOT_MAP", "SlotRef")
    ∷ []

-- `SLOT_BACK_REFERENCES`.
abbrev pub slot_back_references : List String
slot_back_references = "VsContextOffset" ∷ "VsContext" ∷ []
