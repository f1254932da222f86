-- ===== src/Workflow/Validated.antt =====
-- What the checks of a workflow give the planner.
use data_ops_studio_v.Base.{
  ◌+◌, ◌≤◌, ◌≡◌, ◌≢◌, refl, ap, String, Bool, true, false, List, [], ◌∷◌, if◌then◌else◌, str_eq,
  str_eq_iff, length, map, ok, raise, raise_if, ◌>>◌, arith, Bool-cases, inl, inr,
}
use data_ops_studio_v.Keys.{occurs}
use data_ops_studio_v.Workflow.{WorkflowNode, WorkflowSpec, out_of_fuel}
use data_ops_studio_v.Workflow.Topology.{by_index, topological_nodes}
use data_ops_studio_v.Workflow.Topology.Order.{HasUniqueIds, topological_nodes-Follows}
use data_ops_studio_v.Workflow.Topology.Tracked.{Follows}
use data_ops_studio_v.Workflow.Topology.Fuel.{topological_nodes-ne-out_of_fuel}
use data_ops_studio_v.Workflow.Validate.{
  SpecError, Check, member, validate_ids, validate_edges, validate_routes, validate_dag,
  duplicate_node_id,
}

-- A check that passes has passed its parts.
pub passed : (m : Check) (k : Check) → (m >> k) ≡ ok tt → (m ≡ ok tt) × (k ≡ ok tt)
passed (raise e) k h = cc
passed (ok u) k h = (unit_ok u, h)
  where
    unit_ok : (u : Unit {0}) → ◌≡◌ {A = Check} (ok u) (ok tt)
    unit_ok u = refl

pub not_raised : (b : Bool) (e : SpecError) → raise_if b e ≡ ok tt → b ≡ false
not_raised true e h = cc
not_raised false e h = refl

module _ (nodes : List WorkflowNode) where
  unique_ids :
      (ns : List WorkflowNode) (seen : List String) (id : String)
      → validate_ids ns seen ≡ ok tt
      → occurs (by_index nodes) id (map (λ (n : WorkflowNode). n.id) ns)
          + (if member id seen then 1 else 0)
        ≤ 1
  unfolding validate_ids occurs
  unique_ids [] seen id h = ground arith
  unique_ids (n ∷ ns) seen id h =
      let (new, rest) =
        passed (raise_if (member n.id seen) duplicate_node_id) (validate_ids ns (n.id ∷ seen)) h in
      let fresh = not_raised (member n.id seen) duplicate_node_id new in
      let ih = unique_ids ns (n.id ∷ seen) id rest in
      elim (Bool-cases (str_eq n.id id)) [
        | inl same ↦
            let e : n.id ≡ id = (str_eq_iff n.id id).0 same in
            let here = ap (λ x. member x seen) e in ground (arith, str_eq_iff id n.id)
        | inr other ↦ ground (arith, str_eq_iff id n.id, str_eq_iff n.id id)
      ]

pub dag_parts :
    (spec : WorkflowSpec)
    → validate_dag spec ≡ ok tt
    → (validate_ids spec.nodes [] ≡ ok tt) × (validate_routes spec.nodes spec.edges ≡ ok tt)
unfolding validate_dag
dag_parts spec valid =
    let edges = validate_edges (map (λ (n : WorkflowNode). n.id) spec.nodes) spec.edges [] in
    let routes = validate_routes spec.nodes spec.edges in
    let (ids, more) = passed (validate_ids spec.nodes []) (edges >> routes) valid in
    (ids, (passed edges routes more).1)

-- The ids of a workflow that passes the checks are different.
validate_dag-HasUniqueIds : (spec : WorkflowSpec) → validate_dag spec ≡ ok tt → HasUniqueIds spec
validate_dag-HasUniqueIds spec valid id =
    omega (arith, unique_ids spec.nodes spec.nodes [] id (dag_parts spec valid).0)

-- For a workflow that passes the checks the search for an order of its nodes ends: the loop of the
-- model, with as many rounds as there are nodes, does not run out of fuel.
pub topological_nodes_ends :
    (spec : WorkflowSpec) → validate_dag spec ≡ ok tt → topological_nodes spec ≢ raise out_of_fuel
topological_nodes_ends spec valid =
    topological_nodes-ne-out_of_fuel spec (validate_dag-HasUniqueIds spec valid)

-- An order that is found for a workflow that passes the checks has as many nodes as the workflow, and
-- follows the edges: the source of an edge into a node stands before the node.
pub topological_nodes_order :
    (spec : WorkflowSpec) (order : List WorkflowNode)
    → validate_dag spec ≡ ok tt
    → topological_nodes spec ≡ ok order
    → Follows spec.edges [] (map (λ (n : WorkflowNode). n.id) order)
      × (length order ≡ length spec.nodes)
topological_nodes_order spec order valid =
    topological_nodes-Follows spec order (validate_dag-HasUniqueIds spec valid)
