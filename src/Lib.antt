-- ===== src/Lib.antt =====
-- dbgscope reads the memory of a Windows kernel through the debugger engine and answers what its
-- pool holds. A walk decodes the allocator's headers (src/pool/decode.rs) into spans (src/pool.rs),
-- an index orders the spans and finds neighbours and holes (src/pool/index.rs), and queries answer
-- from the index (src/pool/query.rs), for a host or for the extension command (src/pool_extension.rs).
-- Beside the pool, src/arm64.rs reads what an instruction does to control flow, and
-- src/dbgeng/kernel_attach.rs watches the engine's output for a target that announces itself.
--
-- Which file models which part:
--   Pool           src/pool.rs, and Pool/Same the equality that it derives;
--   Decode/Bytes   src/pool/decode.rs: range and the little-endian reads;
--   Decode/Vs      decode_vs_sizes and decode_vs_chunk, with the checks as check_vs_chunk;
--   Decode/Lfh     decode_lfh_offsets, decode_lfh_subsegment, LfhBitmap and lfh_bitmap_state;
--   Decode/Descriptor, Decode/Header, Decode/Pointers, Decode/Tags
--                  the other decoders of that file, each under its own name;
--   Extension      src/pool_extension.rs: parse_address and parse_args;
--   KernelAttach   src/dbgeng/kernel_attach.rs: Notice::feed and validate_observation;
--   Snapshot       src/pool/snapshot.rs: PoolDiagnostics, what a walk complained about, and
--   Snapshot/Spans PoolSnapshot, PoolMatchLimit and record_span;
--   Layout         src/pool/layout.rs: the schema, Layout/Tables the names it asks for, Layout/Resolve
--                  resolve and resolve_user, Layout/Resolve/Cache LayoutCache, Layout/Shapes vs_shape,
--                  with VsSemanticFamily of src/allocator.rs;
--   Walk           src/pool/snapshot.rs, the walk: Walk/Memory PoolMemory, check_budget, guarded_read and
--                  scalar; Walk/Nodes tree_nodes and walk_slist_nodes; Walk/Regions PoolRegion, gap,
--                  unreadable (as unreadable_space) and walk_large; Walk/Extent read_extent and
--                  budget_deadlines; Walk/Special, Walk/Slots and Walk/Chunks what an extent is decoded
--                  by (walk_special_pool, walk_lfh, walk_page_ranges, walk_vs); Walk/Region walk_region;
--                  Walk/Discovered walk_discovered_regions;
--   Index          src/pool/index.rs: PoolIndex, and Index/Cache SnapshotCache::get_or_refresh;
--   Query          src/pool/query.rs: the answers drawn from an index, PoolWalk and WalkCoverage;
--   Arm64          src/arm64.rs: flow, relative, unwind_record and xdata_length.
-- A definition has the name of the function it models; a helper beside it is one part of that
-- function, such as a round of its loop. The modules below a component hold its theorems, and Tests
-- the runs at concrete inputs. Base holds what all share: tests and lists on numbers, words, bit
-- operations, hash maps as association lists, and the stable sort.
--
-- How the code is read. A machine word is a natural number, and what the code does at the width is
-- written out: `% 2 ^ 64` where it wraps, checked and saturating operations where it uses them;
-- usize has 64 bits. A signed number is its bits. A text is the list of its bytes, and a slice a
-- list; a read out of range is none. A diagnostic is the list of its characters' numbers. `?` on
-- an Option is a bind, and an error is a value. The mutex of the cache is a state that is passed
-- on, and the walk that a caller gives to it is a function on a world, so that a theorem can say
-- that it is not asked. The type of a layout's provenance and that of diagnostics, which an index
-- only carries, are parameters of the index.
--
-- The target's memory, the debugger's symbols and the clock are an interface, PoolMemory and Symbols:
-- each call takes a world and gives the next one with its answer, so that two reads of one address
-- may differ, a query may stall, and the budget may run out between any two. What the engine's error
-- says is dropped, since no branch reads it. In the walk a diagnostic is a constructor of Complaint
-- with the numbers that its text would show; the text is not modelled. A set of addresses is a list
-- without repetition. Where Rust leaves the order of a hash map open (find_big), the map's list has one.
--
-- Loops are recursion on the list they read, or run on fuel, a round at a time (Walk/Rounds), and
-- give none when the fuel is gone. The fuel is enough since every round moves on: the loop of holes
-- has as many rounds as there are spans; a tree walk has twice its limit and two, since a node pushes
-- two links and the limit ends it; a list walk has its depth or its limit, whichever is less, and one;
-- the loop over a gap or an extent has its size and one, since each round moves the cursor; over slots
-- or cells, the bytes and one; over the chunks of an extent, the bytes and two; over a region, its
-- size and one.
-- walk_lfh gives none too where the unit is zero and the code would divide by it. is_power_of_two
-- tries the 64 exponents of a word.
--
-- Not modelled: the discovery of regions, the big page table and walk_until, which joins discovery
-- and walk (src/pool/snapshot.rs); the provenance and its fingerprint (src/pool/layout.rs,
-- src/allocator.rs); the renderer (src/pool/render.rs), the user heap (src/heap.rs), kernel objects
-- (src/object.rs), PE images (src/pe.rs), ARM64 operands (src/arm64/operand.rs), and the session
-- (src/dbgeng.rs), which calls the engine.
pub mod Base
pub mod Pool
pub mod Decode
pub mod Extension
pub mod KernelAttach
pub mod Snapshot
pub mod Index
pub mod Query
pub mod Layout
pub mod Walk
pub mod Arm64
