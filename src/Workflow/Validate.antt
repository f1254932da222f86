-- ===== src/Workflow/Validate.antt =====
-- The checks that `WorkflowSpec` of app/domain/workflow.py makes of its nodes, its edges and their
-- routes. The search for a cycle and the checks of references to outputs are left out.
use data_ops_studio_v.Base.{
  ℕ, String, Bool, true, false, not, List, [], ◌∷◌, ◌&&◌, ◌||◌, if◌then◌else◌, str_eq, ltb, ◌==◌,
  any, all, filterb, length, map, is_some, Result, ok, ◌>>◌, raise_if,
}
use data_ops_studio_v.Workflow.{WorkflowNode, WorkflowEdge, WorkflowSpec, Trigger}
use data_ops_studio_v.Workflow.Route.{trigger_eq, is_branch, outgoing_edges}

-- The `ValueError`s, by their codes.
pub data SpecError : Type 0 where
  duplicate_node_id unknown_edge_node self_loop duplicate_edge : SpecError
  invalid_branch_routes conditional_edge_requires_branch : SpecError
  missing_failure_route invalid_failure_routes failure_edge_requires_branch : SpecError

abbrev pub Check : Type 0
Check = Result SpecError (Unit {0})

abbrev pub member : String → List String → Bool
member id ids = any (str_eq id) ids

unfoldable pub validate_ids : List WorkflowNode → (node_ids : List String) → Check
validate_ids [] node_ids = ok tt
validate_ids (n ∷ ns) node_ids = do
  raise_if (member n.id node_ids) duplicate_node_id
  validate_ids ns (n.id ∷ node_ids)

abbrev pub same_key : WorkflowEdge → WorkflowEdge → Bool
same_key e f =
    str_eq e.source f.source && str_eq e.target f.target && trigger_eq e.trigger f.trigger

unfoldable pub validate_edges : List String → List WorkflowEdge → (seen : List WorkflowEdge) → Check
validate_edges node_ids [] seen = ok tt
validate_edges node_ids (e ∷ es) seen = do
  raise_if (not (member e.source node_ids)) unknown_edge_node
  raise_if (not (member e.target node_ids)) unknown_edge_node
  raise_if (str_eq e.source e.target) self_loop
  raise_if (any (same_key e) seen) duplicate_edge
  validate_edges node_ids es (e ∷ seen)

abbrev pub condition_valid : WorkflowEdge → Bool
condition_valid e = if e.is_default then not (is_some e.when) else is_some e.when

unfoldable pub validate_first_match_routes :
    List WorkflowEdge → (minimum_edges : ℕ) → SpecError → Check
validate_first_match_routes edges minimum_edges error_code =
    let defaults = filterb (λ (e : WorkflowEdge). e.is_default) edges in
    raise_if
      (ltb (length edges) minimum_edges
        || not (length defaults == 1)
        || not (all condition_valid edges))
      error_code

abbrev pub on_trigger : Trigger → List WorkflowEdge → List WorkflowEdge
on_trigger t edges = filterb (λ (e : WorkflowEdge). trigger_eq e.trigger t) edges

unfoldable pub validate_success_routes : WorkflowNode → List WorkflowEdge → Check
validate_success_routes node edges =
    if str_eq node.job_kind "branch"
    then validate_first_match_routes edges 2 invalid_branch_routes
    else raise_if (any (λ (e : WorkflowEdge). is_some e.when || e.is_default) edges)
        conditional_edge_requires_branch

abbrev pub is_empty : List WorkflowEdge → Bool
is_empty [] = true
is_empty (_ ∷ _) = false

unfoldable pub validate_failure_routes : WorkflowNode → List WorkflowEdge → Check
validate_failure_routes node edges =
    if is_branch node.on_failure
    then raise_if (is_empty edges) missing_failure_route
      >> validate_first_match_routes edges 1 invalid_failure_routes
    else raise_if (not (is_empty edges)) failure_edge_requires_branch

unfoldable pub validate_node_routes : WorkflowNode → List WorkflowEdge → Check
validate_node_routes node outgoing = do
  validate_success_routes node (on_trigger Trigger.success outgoing)
  validate_failure_routes node (on_trigger Trigger.failure outgoing)

unfoldable pub validate_routes : List WorkflowNode → List WorkflowEdge → Check
validate_routes [] edges = ok tt
validate_routes (n ∷ ns) edges = do
  validate_node_routes n (outgoing_edges n.id edges)
  validate_routes ns edges

unfoldable pub validate_dag : WorkflowSpec → Check
validate_dag spec = do
  validate_ids spec.nodes []
  validate_edges (map (λ (n : WorkflowNode). n.id) spec.nodes) spec.edges []
  validate_routes spec.nodes spec.edges
