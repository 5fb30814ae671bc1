-- ===== src/Walk/Nodes.antt =====
-- src/pool/snapshot.rs: the walks over the allocator's trees and lists.
pub mod Trees
pub mod Lists
pub mod Candidates
use dbgscope.Base.{
  ℕ, zero, suc, ◌+◌, ◌-◌, ◌*◌, ◌%◌, ◌^◌, bit_and, Bool, true, false, not, ◌||◌, ◌&&◌, ◌==◌, ltb,
  leb, if◌then◌else◌, Option, none, some, List, [], ◌∷◌, ◌++◌, length, any, Result, ok, err, min,
}
use dbgscope.Base.Members.{contains}
use dbgscope.Base.Words.{u64, saturating_add, saturating_sub, checked_sub, u64_max}
use dbgscope.Decode.Header.{page_size}
use dbgscope.Decode.Vs.{vs_unit}
use dbgscope.Decode.Bytes.{read_u16, read_u64}
use dbgscope.Decode.Pointers.{decode_rb_root, decode_slist_header_next, decode_rb_root_for}
use dbgscope.Walk.Rounds.{Round, again, done, iterate}
use dbgscope.Layout.{PoolLayout, TypeLayout, LayoutError, field, type_layout, is_user}
use dbgscope.Walk.Complaints.{
  Complaint, cycle_detected, limit_reached, unreadable_node, unresolved_field, unresolved_header,
  unresolved_depth, unresolved_next, unreadable_root, unreadable_flag, unreadable_head,
  corrupt_root, short_list,
}
use dbgscope.Walk.Memory.{SnapshotError, PoolMemory, check_budget, guarded_read, scalar}
use mathlib.Core.Option

-- The larger of two offsets.
abbrev pub max : ℕ → ℕ → ℕ
max a b = if ltb a b then b else a

pub record TreeWalk : Type 0 where
  pub nodes : List ℕ
  pub stack : List ℕ
  pub seen : List ℕ
  pub diagnostics : List Complaint

-- What a walk of nodes leaves: the world, the complaints, and the nodes or the error that halts it.
abbrev pub Outcome : Type 0 → Type 0
Outcome World = World × List Complaint × Result (List ℕ) SnapshotError

-- `if let Some(link) = link { stack.push(link) }`.
abbrev pub push_link : Option ℕ → List ℕ → List ℕ
push_link none stack = stack
push_link (some link) stack = link ∷ stack

module _ {World : Type 0} (memory : PoolMemory World) where
  module _ (left_offset right_offset limit : ℕ) where
    -- The node is read, or complained about.
    abbrev pub expand_node :
        ℕ
        → TreeWalk
        → World × Result (List ℕ) SnapshotError
        → Round (World × TreeWalk) (Outcome World)
    expand_node node walk (w, ok bytes) = again (
      w,
      record walk {
        nodes = walk.nodes ++ (node ∷ []);
        stack =
            push_link (read_u64 bytes left_offset)
              (push_link (read_u64 bytes right_offset) walk.stack);
      },
    )
    expand_node node walk (w, err e) =
        again (w, record walk { diagnostics = walk.diagnostics ++ (unreadable_node node e ∷ []) })

    -- The node, once the budget allows it.
    abbrev pub visit_node :
        ℕ
        → TreeWalk
        → World × Result (Unit {0}) SnapshotError
        → Round (World × TreeWalk) (Outcome World)
    visit_node node walk (w, err e) = done (w, walk.diagnostics, err e)
    visit_node node walk (w, ok _) =
        if contains node walk.seen
        then again (w, record walk { diagnostics = walk.diagnostics ++ (cycle_detected node ∷ []) })
        else if leb limit (length walk.nodes)
        then done (w, walk.diagnostics ++ (limit_reached ∷ []), ok walk.nodes)
        else expand_node node (record walk { seen = node ∷ walk.seen })
            (guarded_read memory node (saturating_add (max left_offset right_offset) 8) w)

    abbrev pub pop_node : TreeWalk → List ℕ → World → Round (World × TreeWalk) (Outcome World)
    pop_node walk [] w = done (w, walk.diagnostics, ok walk.nodes)
    pop_node walk (node ∷ rest) w =
        let popped = record walk { stack = rest } in
        if node == 0 then again (w, popped) else visit_node node popped (check_budget memory w)

    unfoldable pub tree_round : World × TreeWalk → Round (World × TreeWalk) (Outcome World)
    tree_round (w, walk) = pop_node walk walk.stack w

    -- A node that is read adds at most two to the stack, and at most `limit` are.
    unfoldable pub walk_tree_nodes : ℕ → List Complaint → World → Option (Outcome World)
    walk_tree_nodes root diagnostics w =
        iterate tree_round (2 * limit + 2)
          (w, record { nodes = []; stack = root ∷ []; seen = []; diagnostics = diagnostics })

-- The list's nodes that are read, and what is next.
pub record ListWalk : Type 0 where
  pub entry : ℕ
  pub nodes : List ℕ
  pub seen : List ℕ
  pub diagnostics : List Complaint

-- `next & !0xf`.
abbrev pub link_of : ℕ → ℕ
link_of next = bit_and next (u64_max - 0xf)

-- What remains to be said once the loop has ended.
abbrev pub end_list : ℕ → ℕ → List Complaint → List ℕ → List Complaint
end_list depth limit diagnostics nodes =
    if ltb limit depth
    then diagnostics ++ (limit_reached ∷ [])
    else if not (length nodes == depth)
    then diagnostics ++ (short_list depth (length nodes) ∷ [])
    else diagnostics

-- The outcome of a walk that was not halted.
abbrev pub found_nodes : {World : Type 0} → ℕ → ℕ → World → List Complaint → List ℕ → Outcome World
found_nodes depth limit w diagnostics nodes = (w, end_list depth limit diagnostics nodes, ok nodes)

-- An `Ok(Vec::new())` after a complaint.
abbrev pub give_up : {World : Type 0} → World → List Complaint → Complaint → Option (Outcome World)
give_up w diagnostics complaint = some (w, diagnostics ++ (complaint ∷ []), ok [])

module _ {World : Type 0} (memory : PoolMemory World) where
  module _ (depth limit : ℕ) where
    -- The link of an entry, or the complaint that ends the list.
    abbrev pub follow_link :
        ListWalk → World × Result ℕ SnapshotError → Round (World × ListWalk) (Outcome World)
    follow_link walk (w, ok next) = again (w, record walk { entry = link_of next })
    follow_link walk (w, err e) = done (
        found_nodes depth limit w (walk.diagnostics ++ (unreadable_node walk.entry e ∷ []))
          walk.nodes)

    abbrev pub visit_entry :
        ListWalk
        → World × Result (Unit {0}) SnapshotError
        → Round (World × ListWalk) (Outcome World)
    visit_entry walk (w, err e) = done (w, walk.diagnostics, err e)
    visit_entry walk (w, ok _) =
        if contains walk.entry walk.seen
        then done (
            found_nodes depth limit w (walk.diagnostics ++ (cycle_detected walk.entry ∷ []))
              walk.nodes)
        else follow_link
            (record walk { nodes = walk.nodes ++ (walk.entry ∷ []); seen = walk.entry ∷ walk.seen })
            (scalar memory walk.entry 8 w)

    unfoldable pub list_round : World × ListWalk → Round (World × ListWalk) (Outcome World)
    list_round (w, walk) =
        if not (walk.entry == 0) && ltb (length walk.nodes) (min depth limit)
        then visit_entry walk (check_budget memory w)
        else done (found_nodes depth limit w walk.diagnostics walk.nodes)

    -- Every round adds a node or ends the loop.
    abbrev pub list_loop : ℕ → List Complaint → World → Option (Outcome World)
    list_loop entry diagnostics w =
        iterate list_round (min depth limit + 1)
          (w, record { entry = entry; nodes = []; seen = []; diagnostics = diagnostics })

  -- The depth and the first entry of a list head.
  abbrev pub walk_head :
      ℕ → ℕ → ℕ → List Complaint → World × Result (List ℕ) SnapshotError → Option (Outcome World)
  walk_head alignment_offset region_offset limit diagnostics (w, err e) =
      give_up w diagnostics (unreadable_head e)
  walk_head alignment_offset region_offset limit diagnostics (w, ok bytes) =
      list_loop (Option.get_or (read_u16 bytes alignment_offset) 0) limit
        (Option.get_or (Option.map decode_slist_header_next (read_u64 bytes region_offset)) 0)
        diagnostics w

  module _ (layout : PoolLayout) where
    abbrev pub head_fields :
        ℕ
        → ℕ
        → List Complaint
        → World
        → Result TypeLayout LayoutError
        → Result ℕ LayoutError
        → Result ℕ LayoutError
        → Option (Outcome World)
    head_fields head limit diagnostics w (err _) alignment region =
        give_up w diagnostics unresolved_header
    head_fields head limit diagnostics w (ok header) (err _) region =
        give_up w diagnostics unresolved_depth
    head_fields head limit diagnostics w (ok header) (ok alignment) (err _) =
        give_up w diagnostics unresolved_next
    head_fields head limit diagnostics w (ok header) (ok alignment) (ok region) =
        walk_head alignment region limit diagnostics (guarded_read memory head header.size w)

    unfoldable pub walk_slist_nodes : ℕ → ℕ → List Complaint → World → Option (Outcome World)
    walk_slist_nodes head limit diagnostics w =
        head_fields head limit diagnostics w (type_layout layout "_SLIST_HEADER")
          (field layout "_SLIST_HEADER" "Alignment") (field layout "_SLIST_HEADER" "Region")

    -- The walk from a root that is decoded. A field that is missing ends it without a complaint.
    abbrev pub walk_links :
        ℕ
        → ℕ
        → List Complaint
        → World
        → Result ℕ LayoutError
        → Result ℕ LayoutError
        → Option (Outcome World)
    walk_links root limit diagnostics w (ok left) (ok right) =
        walk_tree_nodes memory left right limit root diagnostics w
    walk_links root limit diagnostics w (ok left) (err _) = some (w, diagnostics, ok [])
    walk_links root limit diagnostics w (err _) right = some (w, diagnostics, ok [])

    abbrev pub walk_root : ℕ → ℕ → List Complaint → World → Option ℕ → Option (Outcome World)
    walk_root root_value limit diagnostics w none = give_up w diagnostics (corrupt_root root_value)
    walk_root root_value limit diagnostics w (some root) =
        walk_links root limit diagnostics w (field layout "_RTL_BALANCED_NODE" "Left")
          (field layout "_RTL_BALANCED_NODE" "Right")

    -- The root, once it is known whether it is encoded.
    abbrev pub decode_root :
        ℕ → ℕ → ℕ → List Complaint → World × Result Bool SnapshotError → Option (Outcome World)
    decode_root tree_address root_value limit diagnostics (w, err e) =
        give_up w diagnostics (unreadable_flag e)
    decode_root tree_address root_value limit diagnostics (w, ok encoded) =
        walk_root root_value limit diagnostics w (
          if is_user layout
          then decode_rb_root_for root_value tree_address encoded true
          else decode_rb_root root_value tree_address encoded)

    abbrev pub flag_of : World × Result ℕ SnapshotError → World × Result Bool SnapshotError
    flag_of (w, ok value) = (w, ok (not (bit_and value 1 == 0)))
    flag_of (w, err e) = (w, err e)

    abbrev pub encoded_flag : ℕ → World → Result ℕ LayoutError → World × Result Bool SnapshotError
    encoded_flag tree_address w (err _) = (w, ok false)
    encoded_flag tree_address w (ok encoded_offset) =
        flag_of (scalar memory (u64 (tree_address + encoded_offset)) 1 w)

    abbrev pub read_root :
        ℕ → ℕ → List Complaint → World × Result ℕ SnapshotError → Option (Outcome World)
    read_root tree_address limit diagnostics (w, err e) = give_up w diagnostics (unreadable_root e)
    read_root tree_address limit diagnostics (w, ok root_value) =
        decode_root tree_address root_value limit diagnostics
          (encoded_flag tree_address w (field layout "_RTL_RB_TREE" "Encoded"))

    abbrev pub root_field :
        ℕ → ℕ → List Complaint → World → Result ℕ LayoutError → Option (Outcome World)
    root_field tree_address limit diagnostics w (err _) = give_up w diagnostics unresolved_field
    root_field tree_address limit diagnostics w (ok root_offset) =
        read_root tree_address limit diagnostics
          (scalar memory (u64 (tree_address + root_offset)) 8 w)

    abbrev pub polled_tree :
        ℕ → ℕ → List Complaint → World × Result (Unit {0}) SnapshotError → Option (Outcome World)
    polled_tree tree_address limit diagnostics (w, err e) = some (w, diagnostics, err e)
    polled_tree tree_address limit diagnostics (w, ok _) =
        root_field tree_address limit diagnostics w (field layout "_RTL_RB_TREE" "Root")

    unfoldable pub tree_nodes : ℕ → ℕ → List Complaint → World → Option (Outcome World)
    tree_nodes tree_address limit diagnostics w =
        polled_tree tree_address limit diagnostics (check_budget memory w)

-- `HashSet::insert`.
abbrev pub insert_number : ℕ → List ℕ → List ℕ
insert_number n set = if contains n set then set else n ∷ set

-- The header before an entry, and where a page's end moves it. A pool header is less than a page.
abbrev pub insert_header : ℕ → List ℕ → Option ℕ → List ℕ
insert_header pool_header_size cached none = cached
insert_header pool_header_size cached (some header) =
    let with_header = insert_number header cached in
    if bit_and header (page_size - 1) == page_size - pool_header_size
    then insert_number (saturating_sub header vs_unit) with_header
    else with_header

unfoldable pub insert_cached_chunk_candidates : List ℕ → ℕ → ℕ → ℕ → List ℕ
insert_cached_chunk_candidates cached entry pool_header_size vs_header_size =
    insert_header pool_header_size (insert_number entry cached)
      (checked_sub entry (saturating_add pool_header_size vs_header_size))
