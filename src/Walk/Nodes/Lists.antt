-- ===== src/Walk/Nodes/Lists.antt =====
-- The walk over a list, and the candidates that an entry gives.
use dbgscope.Base.{
  ℕ, ◌+◌, ◌-◌, ◌≤◌, ◌<◌, ◌≡◌, ◌≢◌, arith, true, not, ◌&&◌, ◌==◌, ltb, &&-eq-true, min, Bool-cases,
  inl, inr, some, List, [], ◌∷◌, ◌++◌, length, length-append, All, Result, ok, err,
}
use dbgscope.Base.Members.{
  contains, contains-false, contains_cons, contains_self, Distinct, Distinct-append_one, All-map,
  All-append_one,
}
use dbgscope.Layout.{PoolLayout, TypeLayout, LayoutError}
use dbgscope.Walk.Complaints.{Complaint}
use dbgscope.Walk.Memory.{SnapshotError, PoolMemory, check_budget, scalar}
use dbgscope.Walk.Rounds.{Round, Keeps, iterate-returns}
use dbgscope.Walk.Nodes.{
  Outcome, ListWalk, follow_link, visit_entry, list_round, list_loop, walk_head, head_fields,
  walk_slist_nodes,
}
use dbgscope.Walk.Nodes.Trees.{IsNodes, Returns, give_up-Returns}

module _ {World : Type 0} (memory : PoolMemory World) (depth limit : ℕ) where
  abbrev work : ListWalk → ℕ
  work walk = min depth limit - length walk.nodes

  -- The nodes are distinct addresses other than null, all of them seen, and no more than the depth and
  -- the limit allow.
  abbrev IsListWalk : ListWalk → Type 0
  IsListWalk walk =
      Distinct walk.nodes
      × All (λ n. contains n walk.seen ≡ true) walk.nodes
      × All (λ n. n ≢ 0) walk.nodes
      × (length walk.nodes ≤ min depth limit)

  abbrev KeepsNodes : ℕ → Round (World × ListWalk) (Outcome World) → Type 0
  KeepsNodes = Keeps (λ s. IsListWalk s.1) (λ s. work s.1) (λ o. IsNodes limit o.2)

  nodes_of : (walk : ListWalk) → IsListWalk walk → IsNodes limit (ok walk.nodes)
  nodes_of walk (distinct, seen, nonzero, few) = (distinct, nonzero, omega arith)

  follow_link-Keeps :
      (walk : ListWalk) (before : ℕ) (read : World × Result ℕ SnapshotError)
      → IsListWalk walk
      → work walk < before
      → KeepsNodes before (follow_link memory depth limit walk read)
  follow_link-Keeps walk before (w, ok next) h less = (h, less)
  follow_link-Keeps walk before (w, err e) h less = nodes_of walk h

  visit_entry-Keeps :
      (walk : ListWalk) (polled : World × Result (Unit {0}) SnapshotError)
      → IsListWalk walk
      → walk.entry ≢ 0
      → length walk.nodes < min depth limit
      → KeepsNodes (work walk) (visit_entry memory depth limit walk polled)
  visit_entry-Keeps walk (w, err e) h nonzero room = tt
  visit_entry-Keeps walk (w, ok _) h nonzero room =
      let (distinct, seen, others, few) = h in
      let size = length-append walk.nodes (walk.entry ∷ []) in
      elim (Bool-cases (contains walk.entry walk.seen)) [
        | inl cycle ↦ rw (Keeps, cycle) (nodes_of walk h)
        | inr fresh ↦
            rw (Keeps, fresh)
              (follow_link-Keeps
                (record walk {
                  nodes = walk.nodes ++ (walk.entry ∷ []);
                  seen = walk.entry ∷ walk.seen;
                })
                (work walk) (scalar memory walk.entry 8 w)
                (
                  Distinct-append_one walk.nodes walk.entry distinct
                      (contains-false walk.entry walk.nodes walk.seen seen fresh),
                  All-append_one (λ n. contains n (walk.entry ∷ walk.seen) ≡ true) walk.nodes
                      walk.entry
                      (All-map (λ n. contains n walk.seen ≡ true)
                        (λ n. contains n (walk.entry ∷ walk.seen) ≡ true) walk.nodes
                        (λ n known. contains_cons n walk.entry walk.seen known) seen)
                      (contains_self walk.entry walk.seen),
                  All-append_one (λ n. n ≢ 0) walk.nodes walk.entry others nonzero,
                  omega arith,
                )
                (omega arith))
      ]

  list_round-Keeps :
      (w : World) (walk : ListWalk)
      → IsListWalk walk
      → KeepsNodes (work walk) (list_round memory depth limit (w, walk))
  unfolding list_round
  list_round-Keeps w walk h =
      elim (Bool-cases (not (walk.entry == 0) && ltb (length walk.nodes) (min depth limit))) [
        | inl goes ↦
            let (nonzero, room) = &&-eq-true (not (walk.entry == 0)) _ goes in
            rw (Keeps, goes)
              (visit_entry-Keeps walk (check_budget memory w) h (ground arith) (ground arith))
        | inr ends ↦ rw (Keeps, ends) (nodes_of walk h)
      ]

  list_loop-Returns :
      (entry : ℕ) (diagnostics : List Complaint) (w : World)
      → Returns limit (list_loop memory depth limit entry diagnostics w)
  list_loop-Returns entry diagnostics w =
      iterate-returns (list_round memory depth limit) (λ s. IsListWalk s.1) (λ s. work s.1)
        (λ o. IsNodes limit o.2) (λ s h. list_round-Keeps s.0 s.1 h) (min depth limit + 1)
        (w, record { entry = entry; nodes = []; seen = []; diagnostics = diagnostics })
        (tt, tt, tt, omega arith) (omega arith)

module _ {World : Type 0} (memory : PoolMemory World) (layout : PoolLayout) (head limit : ℕ)
    (diagnostics : List Complaint) where
  walk_head-Returns :
      (alignment region : ℕ) (read : World × Result (List ℕ) SnapshotError)
      → Returns limit (walk_head memory alignment region limit diagnostics read)
  walk_head-Returns alignment region (w, err e) = give_up-Returns limit diagnostics w _
  walk_head-Returns alignment region (w, ok bytes) =
      list_loop-Returns memory _ limit _ diagnostics w

  head_fields-Returns :
      (w : World) (header : Result TypeLayout LayoutError) (alignment region : Result ℕ LayoutError)
      → Returns limit (head_fields memory layout head limit diagnostics w header alignment region)
  head_fields-Returns w (err e) alignment region = give_up-Returns limit diagnostics w _
  head_fields-Returns w (ok header) (err e) region = give_up-Returns limit diagnostics w _
  head_fields-Returns w (ok header) (ok alignment) (err e) = give_up-Returns limit diagnostics w _
  head_fields-Returns w (ok header) (ok alignment) (ok region) =
      walk_head-Returns alignment region _

  -- The walk over a list ends, whatever the memory and the layout answer: its fuel is enough, also on a
  -- list that runs in a circle. Where no error halts it, the nodes that it returns are distinct, none is
  -- null, and there are at most the limit.
  pub walk_slist_nodes-Returns :
      (w : World)
      → (outcome : Outcome World) × (walk_slist_nodes memory layout head limit diagnostics w
          ≡ some outcome)
        × IsNodes limit outcome.2
  unfolding walk_slist_nodes
  walk_slist_nodes-Returns w = head_fields-Returns w _ _ _
