-- ===== src/Walk/Nodes/Trees.antt =====
-- The walk over a tree.
use dbgscope.Base.{
  ℕ, suc, ◌+◌, ◌-◌, ◌*◌, ◌≤◌, ◌<◌, ◌≡◌, ◌≢◌, refl, ap, sym, arith, Bool, true, false, ◌==◌, leb,
  Bool-cases, inl, inr, Option, none, some, List, [], ◌∷◌, length, length-append, All, Result, ok,
  err,
}
use dbgscope.Base.Members.{
  contains, contains-false, contains_cons, contains_self, Distinct, Distinct-append_one, All-map,
  All-append_one,
}
use dbgscope.Decode.Bytes.{read_u64}
use dbgscope.Walk.Memory.{SnapshotError, PoolMemory, check_budget}
use dbgscope.Walk.Rounds.{Round, Keeps, iterate-returns}
use dbgscope.Walk.Complaints.{Complaint}
use dbgscope.Layout.{PoolLayout, LayoutError}
use dbgscope.Walk.Nodes.{
  give_up, walk_links, walk_root, decode_root, read_root, root_field, polled_tree, tree_nodes,
  TreeWalk, Outcome, push_link, expand_node, visit_node, pop_node, tree_round, walk_tree_nodes,
}

-- What the nodes of an outcome are, where no error halts the walk.
abbrev pub IsNodes : ℕ → Result (List ℕ) SnapshotError → Type 0
IsNodes limit (err e) = Unit
IsNodes limit (ok nodes) = Distinct nodes × All (λ n. n ≢ 0) nodes × (length nodes ≤ limit)

-- A walk ends, and its nodes are such.
abbrev pub Returns : {World : Type 0} → ℕ → Option (Outcome World) → Type 0
Returns {World} limit walked =
    (outcome : Outcome World) × (walked ≡ some outcome) × IsNodes limit outcome.2

pub give_up-Returns :
    {World : Type 0} (limit : ℕ) (diagnostics : List Complaint) (w : World) (complaint : Complaint)
    → Returns limit (give_up w diagnostics complaint)
give_up-Returns limit diagnostics w complaint = (_, refl, (tt, tt, omega arith))

module _ {World : Type 0} (memory : PoolMemory World) (left_offset right_offset limit : ℕ) where
  -- What is left to do: every node that may still be read puts two on the stack.
  abbrev work : TreeWalk → ℕ
  work walk = 2 * (limit - length walk.nodes) + length walk.stack

  -- The nodes are distinct addresses other than null, all of them seen, and at most the limit.
  abbrev IsTreeWalk : TreeWalk → Type 0
  IsTreeWalk walk =
      Distinct walk.nodes
      × All (λ n. contains n walk.seen ≡ true) walk.nodes
      × All (λ n. n ≢ 0) walk.nodes
      × (length walk.nodes ≤ limit)

  abbrev KeepsNodes : ℕ → Round (World × TreeWalk) (Outcome World) → Type 0
  KeepsNodes = Keeps (λ s. IsTreeWalk s.1) (λ s. work s.1) (λ o. IsNodes limit o.2)

  length-push_link :
      (link : Option ℕ) (stack : List ℕ) → length (push_link link stack) ≤ length stack + 1
  length-push_link none stack = omega arith
  length-push_link (some link) stack = omega arith

  expand_node-Keeps :
      (node : ℕ) (walk : TreeWalk) (before : ℕ) (read : World × Result (List ℕ) SnapshotError)
      → IsTreeWalk walk
      → node ≢ 0
      → contains node walk.nodes ≡ false
      → contains node walk.seen ≡ true
      → length walk.nodes < limit
      → work walk < before
      → KeepsNodes before (expand_node memory left_offset right_offset limit node walk read)
  expand_node-Keeps node walk before (w, err e) h nz fresh seen room less = (h, less)
  expand_node-Keeps node walk before (w, ok bytes) (distinct, known, nonzero, few) nz fresh seen
        room less =
      let size = length-append walk.nodes (node ∷ []) in
      let right = length-push_link (read_u64 bytes right_offset) walk.stack in
      let left =
        length-push_link (read_u64 bytes left_offset)
          (push_link (read_u64 bytes right_offset) walk.stack) in
      (
        (
          Distinct-append_one walk.nodes node distinct fresh,
          All-append_one (λ n. contains n walk.seen ≡ true) walk.nodes node known seen,
          All-append_one (λ n. n ≢ 0) walk.nodes node nonzero nz,
          omega arith,
        ),
        omega arith,
      )

  visit_node-Keeps :
      (node : ℕ) (walk : TreeWalk) (before : ℕ) (polled : World × Result (Unit {0}) SnapshotError)
      → IsTreeWalk walk
      → node ≢ 0
      → work walk < before
      → KeepsNodes before (visit_node memory left_offset right_offset limit node walk polled)
  visit_node-Keeps node walk before (w, err e) h nz less = tt
  visit_node-Keeps node walk before (w, ok _) h nz less =
      let (distinct, known, nonzero, few) = h in
      elim (Bool-cases (contains node walk.seen)) [
        | inl cycle ↦ rw (Keeps, cycle) (h, less)
        | inr unseen ↦ elim (Bool-cases (leb limit (length walk.nodes))) [
          | inl full ↦ rw (Keeps, unseen, full) (distinct, nonzero, few)
          | inr room ↦
              rw (Keeps, unseen, room)
                (expand_node-Keeps node (record walk { seen = node ∷ walk.seen }) before _
                  (
                    distinct,
                    All-map _ _ walk.nodes (λ n known_n. contains_cons n node walk.seen known_n)
                        known,
                    nonzero,
                    few,
                  )
                  nz (contains-false node walk.nodes walk.seen known unseen)
                  (contains_self node walk.seen) (ground arith) less)
        ]
      ]

  pop_node-Keeps :
      (walk : TreeWalk) (stack : List ℕ) (w : World)
      → walk.stack ≡ stack
      → IsTreeWalk walk
      → KeepsNodes (work walk) (pop_node memory left_offset right_offset limit walk stack w)
  pop_node-Keeps walk [] w e h = (h.0, h.2, h.3)
  pop_node-Keeps walk (node ∷ rest) w e h =
      let less : suc (length rest) ≡ length walk.stack = sym (ap length e) in
      elim (Bool-cases (node == 0)) [
        | inl null ↦ rw (Keeps, null) (h, omega arith)
        | inr address ↦
            rw (Keeps, address)
              (visit_node-Keeps node (record walk { stack = rest }) (work walk)
                (check_budget memory w) h (ground arith) (omega arith))
      ]

  pub walk_tree_nodes-Returns :
      (root : ℕ) (diagnostics : List Complaint) (w : World)
      → Returns limit (walk_tree_nodes memory left_offset right_offset limit root diagnostics w)
  unfolding walk_tree_nodes tree_round
  walk_tree_nodes-Returns root diagnostics w =
      iterate-returns (tree_round memory left_offset right_offset limit) (λ s. IsTreeWalk s.1)
        (λ s. work s.1) (λ o. IsNodes limit o.2) (λ s h. pop_node-Keeps s.1 s.1.stack s.0 refl h)
        (2 * limit + 2) _ (tt, tt, tt, omega arith) (omega arith)

module _ {World : Type 0} (memory : PoolMemory World) (layout : PoolLayout) (tree_address limit : ℕ)
    (diagnostics : List Complaint) where
  walk_links-Returns :
      (root : ℕ) (w : World) (left right : Result ℕ LayoutError)
      → Returns limit (walk_links memory layout root limit diagnostics w left right)
  walk_links-Returns root w (ok left) (ok right) =
      walk_tree_nodes-Returns memory left right limit root diagnostics w
  walk_links-Returns root w (ok left) (err e) = (_, refl, (tt, tt, omega arith))
  walk_links-Returns root w (err e) right = (_, refl, (tt, tt, omega arith))

  walk_root-Returns :
      (root_value : ℕ) (w : World) (root : Option ℕ)
      → Returns limit (walk_root memory layout root_value limit diagnostics w root)
  walk_root-Returns root_value w none = give_up-Returns limit diagnostics w _
  walk_root-Returns root_value w (some root) = walk_links-Returns root w _ _

  decode_root-Returns :
      (root_value : ℕ) (flag : World × Result Bool SnapshotError)
      → Returns limit (decode_root memory layout tree_address root_value limit diagnostics flag)
  decode_root-Returns root_value (w, err e) = give_up-Returns limit diagnostics w _
  decode_root-Returns root_value (w, ok encoded) = walk_root-Returns root_value w _

  read_root-Returns :
      (value : World × Result ℕ SnapshotError)
      → Returns limit (read_root memory layout tree_address limit diagnostics value)
  read_root-Returns (w, err e) = give_up-Returns limit diagnostics w _
  read_root-Returns (w, ok root_value) = decode_root-Returns root_value _

  root_field-Returns :
      (w : World) (offset : Result ℕ LayoutError)
      → Returns limit (root_field memory layout tree_address limit diagnostics w offset)
  root_field-Returns w (err e) = give_up-Returns limit diagnostics w _
  root_field-Returns w (ok offset) = read_root-Returns _

  polled_tree-Returns :
      (polled : World × Result (Unit {0}) SnapshotError)
      → Returns limit (polled_tree memory layout tree_address limit diagnostics polled)
  polled_tree-Returns (w, err e) = (_, refl, tt)
  polled_tree-Returns (w, ok _) = root_field-Returns w _

  -- The walk over a tree ends, whatever the memory and the layout answer: its fuel is enough. Where
  -- no error halts it, the nodes that it returns are distinct, none is null, and there are at most
  -- the limit.
  pub tree_nodes-Returns :
      (w : World)
      → (outcome : Outcome World) × (tree_nodes memory layout tree_address limit diagnostics w
          ≡ some outcome)
        × IsNodes limit outcome.2
  unfolding tree_nodes
  tree_nodes-Returns w = polled_tree-Returns (check_budget memory w)
