-- ===== src/Workflow/Topology/Order.antt =====
-- The order that Kahn's algorithm finds puts the source of every edge before its target.
use data_ops_studio_v.Base.{
  ℕ, suc, ◌≤◌, ◌≡◌, refl, sym, String, some, List, [], ◌∷◌, map, str_eq_iff, ◌==◌, Dict, ok,
  >>=-eq-ok, ap, arith, length, Bool-cases, Option-cases, inl, inr,
}
use data_ops_studio_v.Sql.{order_by}
use data_ops_studio_v.Keys.{occurs}
use data_ops_studio_v.Workflow.{WorkflowNode, WorkflowSpec}
use data_ops_studio_v.Workflow.Topology.{
  by_index, count_edges, no_degrees, sources_of, topological_ids, topological_nodes, pick,
}
use data_ops_studio_v.Workflow.Route.{find_node}
use data_ops_studio_v.Workflow.Topology.Degrees.{
  ok_eq, count, count-nil, degree-no_degrees, degree-count_edges, first_places,
}
use data_ops_studio_v.Workflow.Topology.Tracked.{IsTracked, Follows, sorted-IsTracked, kahn-Follows}

-- The nodes have different ids.
abbrev pub HasUniqueIds : WorkflowSpec → Type 0
HasUniqueIds spec =
    (id : String)
    → occurs (by_index spec.nodes) id (map (λ (n : WorkflowNode). n.id) spec.nodes) ≤ 1

topological_ids-Follows :
    (spec : WorkflowSpec) (ids : List String)
    → HasUniqueIds spec
    → topological_ids spec ≡ ok ids
    → Follows spec.edges [] ids
unfolding topological_ids count
topological_ids-Follows spec ids unique e =
    let (d, counted, run) = >>=-eq-ok (count_edges spec.edges (no_degrees spec.nodes)) _ e in
    kahn-Follows spec.nodes spec.edges _ [] d _ ids (started d counted) run
  where
    started :
        (d : Dict ℕ)
        → count_edges spec.edges (no_degrees spec.nodes) ≡ ok d
        → IsTracked spec.nodes spec.edges [] d
            (order_by (by_index spec.nodes).precedes (sources_of spec.nodes d))
            []
    started d counted =
        sorted-IsTracked spec.nodes spec.edges [] d (sources_of spec.nodes d) (record {
          degrees = λ y. omega (
            arith,
            count-nil spec.nodes y,
            degree-no_degrees spec.nodes y spec.nodes,
            degree-count_edges spec.nodes y spec.edges (no_degrees spec.nodes) d counted,
          );
          places = λ y. first_places spec.nodes d y (unique y);
        })

-- A node that is found has the id.
find_node-id :
    (id : String) (nodes : List WorkflowNode) (n : WorkflowNode)
    → find_node id nodes ≡ some n
    → n.id ≡ id
find_node-id id [] n e = cc
find_node-id id (m ∷ nodes) n e = ground (arith, str_eq_iff m.id id, find_node-id id nodes n)

pick-ids :
    (nodes : List WorkflowNode) (ids : List String) (order : List WorkflowNode)
    → pick nodes ids ≡ ok order
    → map (λ (n : WorkflowNode). n.id) order ≡ ids
unfolding pick
pick-ids nodes [] order e = ap (map (λ (n : WorkflowNode). n.id)) (sym (ok_eq [] order e))
pick-ids nodes (id ∷ ids) order e = elim (Option-cases (find_node id nodes)) [
  | inl missing ↦ let clash = (rw (missing, pick) at e) in cc
  | inr (n, here) ↦
      let (rest, picked, last) =
        >>=-eq-ok (pick nodes ids) (λ rest. ok (n ∷ rest)) (rw (here, pick) at e) in
      let ih = pick-ids nodes ids rest picked in
      let same = find_node-id id nodes n here in
      let shape = ok_eq (n ∷ rest) order last in rw (← shape, same, ih) refl
]

pub length-map : {A B : Type 0} (f : A → B) (xs : List A) → length (map f xs) ≡ length xs
length-map f [] = refl
length-map f (x ∷ xs) = ap suc (length-map f xs)

-- The order that is returned has all the nodes, and the source of every edge stands before its
-- target: no edge into a node comes from an id that is not in front of it.
pub topological_nodes-Follows :
    (spec : WorkflowSpec) (order : List WorkflowNode)
    → HasUniqueIds spec
    → topological_nodes spec ≡ ok order
    → Follows spec.edges [] (map (λ (n : WorkflowNode). n.id) order)
      × (length order ≡ length spec.nodes)
unfolding topological_nodes
topological_nodes-Follows spec order unique e =
    let (ids, found_ids, rest) = >>=-eq-ok (topological_ids spec) _ e in
    elim (Bool-cases (length ids == length spec.nodes)) [
      | inr short ↦ let clash = (rw short at rest) in cc
      | inl whole ↦
          let picked : pick spec.nodes ids ≡ ok order = rw whole at rest in
          let same = pick-ids spec.nodes ids order picked in
          (
            rw same (topological_ids-Follows spec ids unique found_ids),
            ground (arith, length-map (λ (n : WorkflowNode). n.id) order, ap length same),
          )
    ]
