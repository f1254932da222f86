-- ===== src/Workflow/Topology.antt =====
-- `_topological_nodes` of app/domain/workflow_execution.py: Kahn's algorithm.
pub mod Degrees
pub mod Fuel
pub mod Order
pub mod Positive
pub mod Tracked
use data_ops_studio_v.Base.{
  ℕ, zero, suc, ◌+◌, ◌-◌, String, Bool, true, false, not, Option, none, some, List, [], ◌∷◌, ◌++◌,
  map, if◌then◌else◌, str_eq, str_eq_iff, ltb, ◌==◌, any, filterb, length, Dict, lookup, insert,
  Result, ok, raise, ◌>>=◌, ◌>>◌, raise_if, is_some,
}
use data_ops_studio_v.Sql.{order_by}
use data_ops_studio_v.Keys.{Keys}
use data_ops_studio_v.Workflow.{
  WorkflowNode, WorkflowEdge, WorkflowSpec, PlanError, key_error, cycle_detected, out_of_fuel,
}
use data_ops_studio_v.Workflow.Route.{found, find_node}

-- `index_by_id`.
unfoldable pub index_of : String → List WorkflowNode → ℕ
index_of id [] = 0
index_of id (n ∷ ns) = if str_eq n.id id then 0 else suc (index_of id ns)

abbrev pub by_index : List WorkflowNode → Keys String
by_index nodes = record {
  eq = str_eq;
  eq_iff = str_eq_iff;
  precedes = λ a b. ltb (index_of a nodes) (index_of b nodes);
}

abbrev pub edge_targets : String → List WorkflowEdge → List String
edge_targets id edges =
    map (λ (e : WorkflowEdge). e.target) (filterb (λ e. str_eq e.source id) edges)

-- The first loop over the edges: `in_degree[edge.target] += 1`.
unfoldable pub count_edges : List WorkflowEdge → Dict ℕ → Result PlanError (Dict ℕ)
count_edges [] degrees = ok degrees
count_edges (e ∷ es) degrees =
    if not (is_some (lookup e.source degrees))
    then raise key_error
    else elim (lookup e.target degrees) [
      | none ↦ raise key_error
      | some n ↦ count_edges es (insert e.target (n + 1) degrees)
    ]

-- The loop over `downstream[current]`; a degree that falls to 0 has been 1.
unfoldable pub release :
    List String → Dict ℕ → List String → Result PlanError (Dict ℕ × List String)
release [] degrees ready = ok (degrees, ready)
release (t ∷ ts) degrees ready = elim (lookup t degrees) [
  | none ↦ raise key_error
  | some n ↦ release ts (insert t (n - 1) degrees) (if n == 1 then ready ++ t ∷ [] else ready)
]

-- The `while` loop.
unfoldable pub kahn :
    ℕ
    → List WorkflowNode
    → List WorkflowEdge
    → Dict ℕ
    → List String
    → Result PlanError (List String)
kahn fuel nodes edges degrees [] = ok []
kahn zero nodes edges degrees (current ∷ rest) = raise out_of_fuel
kahn (suc fuel) nodes edges degrees (current ∷ rest) = do
  (degrees', ready) ← release (edge_targets current edges) degrees rest
  later ← kahn fuel nodes edges degrees' (order_by (by_index nodes).precedes ready)
  ok (current ∷ later)

abbrev pub is_zero : Option ℕ → Bool
is_zero none = false
is_zero (some n) = n == 0

unfoldable pub no_degrees : List WorkflowNode → Dict ℕ
no_degrees nodes = map (λ n. (n.id, 0)) nodes

unfoldable pub sources_of : List WorkflowNode → Dict ℕ → List String
sources_of nodes degrees =
    filterb (λ id. is_zero (lookup id degrees)) (map (λ (n : WorkflowNode). n.id) nodes)

-- `nodes_by_id[current]` for each id of the order.
unfoldable pub pick : List WorkflowNode → List String → Result PlanError (List WorkflowNode)
pick nodes [] = ok []
pick nodes (id ∷ ids) = do
  node ← found (find_node id nodes)
  rest ← pick nodes ids
  ok (node ∷ rest)

-- The ids in topological order.
unfoldable pub topological_ids : WorkflowSpec → Result PlanError (List String)
topological_ids spec = do
  degrees ← count_edges spec.edges (no_degrees spec.nodes)
  kahn (length spec.nodes) spec.nodes spec.edges degrees
      (order_by (by_index spec.nodes).precedes (sources_of spec.nodes degrees))

unfoldable pub topological_nodes : WorkflowSpec → Result PlanError (List WorkflowNode)
topological_nodes spec = do
  ids ← topological_ids spec
  raise_if (not (length ids == length spec.nodes)) cycle_detected
  pick spec.nodes ids
