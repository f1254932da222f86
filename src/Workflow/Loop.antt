-- ===== src/Workflow/Loop.antt =====
-- The loop of `plan_workflow_step` of app/domain/workflow_execution.py: one turn for each node.
use Prim.Native.String.{◌++◌ as append}
use data_ops_studio_v.Base.{
  ℕ, String, Bool, true, false, not, Option, none, some, List, [], ◌∷◌, ◌++◌, if◌then◌else◌, str_eq,
  any, all, filterb, Dict, lookup, insert, Result, ok, raise, ◌>>=◌,
}
use data_ops_studio_v.Base.Json.{Json, str}
use data_ops_studio_v.Workflow.{
  WorkflowNode, WorkflowChildJob, WorkflowNodeState, WorkflowNodeExecStatus, EdgeDecision, Trigger,
  PlanError, Evaluator, WorkflowSpec,
}
use data_ops_studio_v.Workflow.Child.{
  Retries, node_output_fields, state_from_child, failed_node_outputs,
}
use data_ops_studio_v.Workflow.Route.{
  Routes, found, outgoing_edges, output_context, selected_route, edge_decisions,
  with_failure_route_error,
}

-- The local variables of the loop.
pub record Progress : Type 0 where
  pub states : Dict WorkflowNodeState
  pub route_selections : Routes
  pub inactive_node_ids : List String
  pub enqueue : List String
  pub retries : Retries

-- The arguments of the step.
pub record StepInput : Type 0 where
  pub spec : WorkflowSpec
  pub children : Dict WorkflowChildJob
  pub now : ℕ
  pub default_max_retries : ℕ

abbrev pub is_waiting : EdgeDecision → Bool
is_waiting EdgeDecision.waiting = true
is_waiting _ = false

abbrev pub is_inactive : EdgeDecision → Bool
is_inactive EdgeDecision.inactive = true
is_inactive _ = false

abbrev pub is_blocked : EdgeDecision → Bool
is_blocked EdgeDecision.blocked = true
is_blocked _ = false

abbrev pub put_state : Progress → String → WorkflowNodeState → Progress
put_state p id state = record p { states = insert id state p.states }

-- A state of a node that has no job.
unfoldable pub bare_state :
    String → WorkflowNodeExecStatus → Option String → Dict Json → WorkflowNodeState
bare_state id status error outputs = record {
  node_id = id;
  status = status;
  job_id = none;
  attempts = 0;
  error = error;
  outputs = outputs;
}

-- The state is written twice: the route is chosen among the states that have it already.
unfoldable pub settle_failure :
    Evaluator → StepInput → WorkflowNode → WorkflowNodeState → Progress → Result PlanError Progress
settle_failure ev input node state p = do
  let written = put_state p node.id state
  (state', routes) ←
      with_failure_route_error ev node state (outgoing_edges node.id input.spec.edges)
        written.states p.route_selections
  ok (record (put_state written node.id state') { route_selections = routes })

abbrev pub failed_with : WorkflowNode → String → String → WorkflowNodeState
failed_with node error error_code =
    bare_state node.id WorkflowNodeExecStatus.failed (some error)
      (failed_node_outputs none error_code)

unfoldable pub start : WorkflowNode → Dict Json → Progress → Progress
start node outputs p =
    record (put_state p node.id (bare_state node.id WorkflowNodeExecStatus.waiting none outputs)) {
      enqueue = p.enqueue ++ node.id ∷ [];
    }

-- A branch that runs chooses its target first.
unfoldable pub start_branch :
    Evaluator → StepInput → WorkflowNode → Progress → Result PlanError Progress
start_branch ev input node p = do
  (route, routes) ←
      selected_route ev node.id Trigger.success (outgoing_edges node.id input.spec.edges) p.states
        p.route_selections
  let p' = record p { route_selections = routes }
  elim route [
    | raise message ↦
        settle_failure ev input node
          (failed_with node (append "branch evaluation failed: " message)
            "branch_evaluation_failed")
          p'
    | ok target ↦ ok (start node (("selected_target", str target) ∷ []) p')
  ]

unfoldable pub start_node :
    Evaluator → StepInput → WorkflowNode → Progress → Result PlanError Progress
start_node ev input node p =
    if str_eq node.job_kind "branch" then start_branch ev input node p else ok (start node [] p)

-- A node whose sources are all over, and none of them in its way.
unfoldable pub ready_node :
    Evaluator → StepInput → WorkflowNode → Progress → Result PlanError Progress
ready_node ev input node p =
    let context = output_context p.states in
    elim (ev.evaluate_when node.when context) [
      | raise message ↦
          settle_failure ev input node
            (failed_with node (append "when evaluation failed: " message) "when_evaluation_failed")
            p
      | ok should_run ↦
          if not should_run
          then ok (put_state p node.id (bare_state node.id WorkflowNodeExecStatus.skipped none []))
          else elim (ev.interpolate_payload node.payload context) [
            | raise message ↦
                settle_failure ev input node
                  (failed_with node (append "param interpolation failed: " message)
                    "param_interpolation_failed")
                  p
            | ok _ ↦ start_node ev input node p
          ]
    ]

-- What the decisions over the incoming edges, if there are any, make of the node.
unfoldable pub decided_node :
    Evaluator → StepInput → WorkflowNode → List EdgeDecision → Progress → Result PlanError Progress
decided_node ev input node [] p = ready_node ev input node p
decided_node ev input node (d ∷ ds) p =
    if any is_waiting (d ∷ ds)
    then ok (put_state p node.id (bare_state node.id WorkflowNodeExecStatus.waiting none []))
    else if all is_inactive (d ∷ ds)
    then ok
        (record (put_state p node.id (bare_state node.id WorkflowNodeExecStatus.skipped none [])) {
          inactive_node_ids = p.inactive_node_ids ++ node.id ∷ [];
        })
    else if any is_blocked (d ∷ ds)
    then ok (put_state p node.id (bare_state node.id WorkflowNodeExecStatus.skipped none []))
    else ready_node ev input node p

-- One turn of the loop.
unfoldable pub visit : Evaluator → StepInput → WorkflowNode → Progress → Result PlanError Progress
visit ev input node p = elim (lookup node.id input.children) [
  | some child ↦ do
    allowed ← found (node_output_fields node.job_kind)
    let next = state_from_child allowed node child input.now input.default_max_retries p.retries
    settle_failure ev input node next.0 (record p { retries = next.1 })
  | none ↦ do
    (decisions, routes) ←
        edge_decisions ev input.spec.nodes input.spec.edges
          (filterb (λ e. str_eq e.target node.id) input.spec.edges) p.states p.inactive_node_ids
          p.route_selections
    decided_node ev input node decisions (record p { route_selections = routes })
]

unfoldable pub visit_all :
    Evaluator → StepInput → List WorkflowNode → Progress → Result PlanError Progress
visit_all ev input [] p = ok p
visit_all ev input (node ∷ rest) p = do p' ← visit ev input node p; visit_all ev input rest p'
