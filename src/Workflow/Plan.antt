-- ===== src/Workflow/Plan.antt =====
-- `plan_workflow_step` of app/domain/workflow_execution.py, over the nodes in the order that
-- `_topological_nodes` gives: the loop, and what follows it.
use Prim.Native.String.{◌++◌ as append}
use Prim.Native.Nat.{min}
use data_ops_studio_v.Base.{
  ℕ, String, Bool, true, false, Option, none, some, List, [], ◌∷◌, ◌&&◌, ◌||◌, map, if◌then◌else◌,
  str_eq, all, filterb, Dict, values, Result, ok, ◌>>=◌,
}
use data_ops_studio_v.JobBackend.{JobStatus, is_pending, is_running}
use data_ops_studio_v.Workflow.{
  WorkflowNode, WorkflowChildJob, WorkflowNodeState, WorkflowNodeExecStatus, WorkflowStepPlan,
  OnFailure, PlanError, Evaluator, is_terminal, status_value,
}
use data_ops_studio_v.Workflow.Route.{is_failed, find_node}
use data_ops_studio_v.Workflow.Loop.{Progress, StepInput, visit_all}

unfoldable pub node_failure_message : WorkflowNodeState → String
node_failure_message s =
    let status = status_value s.status in
    let detail : String = elim s.error [
      | none ↦ status
      | some e ↦ if str_eq e "" then status else e
    ] in
    append "workflow node " (append s.node_id (append " " (append status (append ": " detail))))

abbrev pub is_abort : OnFailure → Bool
is_abort OnFailure.abort = true
is_abort _ = false

abbrev pub aborts : List WorkflowNode → String → WorkflowNodeState → Bool
aborts nodes id s =
    is_failed s.status
    && elim (find_node id nodes) [ none ↦ false | some n ↦ is_abort n.on_failure ]

-- The first failed node that aborts the run.
unfoldable pub abort_error : List WorkflowNode → Dict WorkflowNodeState → Option String
abort_error nodes [] = none
abort_error nodes ((id, s) ∷ rest) =
    if aborts nodes id s then some (node_failure_message s) else abort_error nodes rest

unfoldable pub cancel_states : Dict WorkflowNodeState → Dict WorkflowNodeState
cancel_states [] = []
cancel_states ((id, s) ∷ rest) =
    (
      id,
      if is_terminal s.status
          then s
          else record s { node_id = id; status = WorkflowNodeExecStatus.cancelled; outputs = [] },
    )
    ∷ cancel_states rest

abbrev pub is_bad_status : WorkflowNodeExecStatus → Bool
is_bad_status WorkflowNodeExecStatus.failed = true
is_bad_status WorkflowNodeExecStatus.cancelled = true
is_bad_status _ = false

abbrev pub is_bad : WorkflowNodeState → Bool
is_bad s = is_bad_status s.status

abbrev pub is_live : WorkflowChildJob → Bool
is_live c = is_pending c.status || is_running c.status

abbrev pub smallest : List ℕ → Option ℕ
smallest [] = none
smallest (n ∷ ns) = elim (smallest ns) [ none ↦ some n | some m ↦ some (min n m) ]

-- The plan of a run that is over.
unfoldable pub over :
    Dict WorkflowNodeState → List String → JobStatus → Option String → WorkflowStepPlan
over states cancel_job_ids status error = record {
  node_states = states;
  enqueue_node_ids = [];
  retry_job_ids = [];
  cancel_job_ids = cancel_job_ids;
  run_status = some status;
  run_error = error;
  wait_seconds = none;
}

-- What follows the loop.
unfoldable pub conclude : StepInput → Progress → WorkflowStepPlan
conclude input p = elim (abort_error input.spec.nodes p.states) [
  | some message ↦
      over (cancel_states p.states)
        (map (λ (c : WorkflowChildJob). c.job_id) (filterb is_live (values input.children)))
        JobStatus.failed (some message)
  | none ↦
      if all (λ s. is_terminal s.status) (values p.states)
      then elim (filterb is_bad (values p.states)) [
        | [] ↦ over p.states [] JobStatus.success none
        | s ∷ _ ↦ over p.states [] JobStatus.failed (some (node_failure_message s))
      ]
      else record {
        node_states = p.states;
        enqueue_node_ids = p.enqueue;
        retry_job_ids = p.retries.retry_job_ids;
        cancel_job_ids = [];
        run_status = none;
        run_error = none;
        wait_seconds = smallest p.retries.wait_candidates;
      }
]

abbrev pub no_progress : Progress
no_progress = record {
  states = [];
  route_selections = [];
  inactive_node_ids = [];
  enqueue = [];
  retries = record { retry_job_ids = []; wait_candidates = [] };
}

unfoldable pub plan_workflow_step :
    Evaluator → StepInput → (order : List WorkflowNode) → Result PlanError WorkflowStepPlan
plan_workflow_step ev input order = do
  p ← visit_all ev input order no_progress
  ok (conclude input p)
