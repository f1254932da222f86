-- ===== src/Workflow/Tests.antt =====
-- Steps of a small workflow.
use data_ops_studio_v.Base.{
  length, raise, String, Option, Bool, ◌≡◌, refl, true, false, none, some, [], ◌∷◌, ok, is_some,
  ◌≢◌, inl, inr, lookup, All, insert,
}
use data_ops_studio_v.Base.Json.{end, int, pos, str, null}
use data_ops_studio_v.JobBackend.{JobStatus}
use data_ops_studio_v.Workflow.{
  WorkflowSpec, out_of_fuel, stop_iteration, WorkflowNode, WorkflowEdge, WorkflowChildJob,
  WorkflowStepPlan, Evaluator, Trigger, OnFailure, WorkflowNodeExecStatus, is_terminal,
}
use data_ops_studio_v.Workflow.Child.{
  Retries, child_outputs, state_from_child, state_from_status, child_state, filter_outputs,
  node_output_fields, is_safe_node_output_value,
}
use data_ops_studio_v.Workflow.Loop.{
  StepInput, visit_all, visit, decided_node, ready_node, start_node, start, settle_failure,
  bare_state,
}
use data_ops_studio_v.Workflow.Plan.{plan_workflow_step, conclude, over, abort_error}
use data_ops_studio_v.Workflow.Route.{
  edge_decisions, edge_decision, success_decision, with_failure_route_error, output_context,
}
use data_ops_studio_v.Sql.{order_by}
use data_ops_studio_v.Workflow.Topology.{
  topological_nodes, topological_ids, count_edges, no_degrees, sources_of, kahn, release, pick,
  index_of,
}
use data_ops_studio_v.Workflow.Topology.Tracked.{Follows}
use data_ops_studio_v.Workflow.Validate.{
  validate_dag, validate_ids, validate_edges, validate_routes, validate_node_routes,
  validate_success_routes, validate_failure_routes, validate_first_match_routes,
}
use data_ops_studio_v.Workflow.Validated.{topological_nodes_ends, topological_nodes_order}
use data_ops_studio_v.Workflow.Planned.{plan_workflow_step-ne-stop_iteration}
use data_ops_studio_v.Workflow.Enqueue.{HasNoJob, plan_workflow_step-HasNoJob}
use data_ops_studio_v.Workflow.Outcome.{Outcome, plan_workflow_step-Outcome}
use data_ops_studio_v.Workflow.Retry.{Retried, state_from_child-Retried}

-- Conditions that always hold, and payloads without placeholders.
abbrev plain : Evaluator
plain = record {
  evaluate_when = λ when outputs. ok true;
  interpolate_payload = λ payload outputs. ok tt;
}

abbrev load : WorkflowNode
load = record {
  id = "load";
  job_kind = "sql_query";
  payload = end;
  retry_policy = some (record { max_retries = 2; backoff_seconds = 30 });
  timeout_seconds = 60;
  on_failure = OnFailure.abort;
  when = none;
}

abbrev report : WorkflowNode
report = record load { id = "report"; job_kind = "export_excel" }

abbrev load_job : WorkflowChildJob
load_job = record {
  node_id = "load";
  job_id = "j1";
  status = JobStatus.success;
  retry_count = 0;
  finished_at = some 100;
  error = none;
  error_code = none;
  outputs = ("loaded_rows", int (pos 7)) ∷ [];
}

abbrev step_input : StepInput
step_input = record {
  spec = record {
    nodes = load ∷ report ∷ [];
    edges =
        record {
          source = "load";
          target = "report";
          trigger = Trigger.success;
          when = none;
          is_default = false;
        }
        ∷ [];
  };
  children = ("load", load_job) ∷ [];
  now = 110;
  default_max_retries = 0;
}

abbrev first_plan : WorkflowStepPlan
first_plan = record {
  node_states =
      (
        "load",
        record {
          node_id = "load";
          status = WorkflowNodeExecStatus.success;
          job_id = some "j1";
          attempts = 0;
          error = none;
          outputs =
              ("loaded_rows", int (pos 7))
              ∷ ("status", str "success")
              ∷ ("job_id", str "j1")
              ∷ ("error_code", null)
              ∷ [];
        },
      )
      ∷ (
        "report",
        record {
          node_id = "report";
          status = WorkflowNodeExecStatus.waiting;
          job_id = none;
          attempts = 0;
          error = none;
          outputs = [];
        },
      )
      ∷ [];
  enqueue_node_ids = "report" ∷ [];
  retry_job_ids = [];
  cancel_job_ids = [];
  run_status = none;
  run_error = none;
  wait_seconds = none;
}

planned_first : plan_workflow_step plain step_input (load ∷ report ∷ []) ≡ ok first_plan
unfolding plan_workflow_step visit_all visit decided_node ready_node start_node start settle_failure
    bare_state conclude over abort_error edge_decisions edge_decision success_decision is_terminal
    with_failure_route_error output_context state_from_child state_from_status child_state
    child_outputs filter_outputs node_output_fields is_safe_node_output_value lookup insert
planned_first = refl

plan_workflow_step-Outcome_example : Outcome first_plan
plan_workflow_step-Outcome_example =
    plan_workflow_step-Outcome plain step_input (load ∷ report ∷ []) first_plan planned_first

plan_workflow_step-HasNoJob_example : All (HasNoJob step_input) first_plan.enqueue_node_ids
plan_workflow_step-HasNoJob_example =
    plan_workflow_step-HasNoJob plain step_input (load ∷ report ∷ []) first_plan planned_first

abbrev late_job : WorkflowChildJob
late_job = record load_job { status = JobStatus.timeout; retry_count = 1 }

abbrev no_retries : Retries
no_retries = record { retry_job_ids = []; wait_candidates = [] }

late_job_safe : is_some (child_outputs ("loaded_rows" ∷ []) late_job) ≡ true
unfolding child_outputs filter_outputs is_safe_node_output_value insert
late_job_safe = refl

state_from_child-Retried_example :
    Retried load late_job 110 0 no_retries
      (state_from_child ("loaded_rows" ∷ []) load late_job 110 0 no_retries)
state_from_child-Retried_example =
    state_from_child-Retried ("loaded_rows" ∷ []) load late_job 110 0 no_retries refl late_job_safe

abbrev fork : WorkflowNode
fork = record load { id = "fork"; job_kind = "branch"; retry_policy = none }

abbrev edge_from : String → String → Option String → Bool → WorkflowEdge
edge_from source target when is_default = record {
  source = source;
  target = target;
  trigger = Trigger.success;
  when = when;
  is_default = is_default;
}

-- The report and the loading follow the branch; the nodes are declared in another order.
abbrev forked : WorkflowSpec
forked = record {
  nodes = report ∷ load ∷ fork ∷ [];
  edges =
      edge_from "fork" "load" (some "${x} == 1") false ∷ edge_from "fork" "report" none true ∷ [];
}

forked_valid : validate_dag forked ≡ ok tt
unfolding validate_dag validate_ids validate_edges validate_routes validate_node_routes
    validate_success_routes validate_failure_routes validate_first_match_routes
forked_valid = refl

forked_order : topological_nodes forked ≡ ok (fork ∷ report ∷ load ∷ [])
unfolding topological_nodes topological_ids count_edges no_degrees sources_of kahn release pick
    index_of order_by lookup insert
forked_order = refl

topological_nodes_ends_example : topological_nodes forked ≢ raise out_of_fuel
topological_nodes_ends_example = topological_nodes_ends forked forked_valid

topological_nodes_order_example :
    Follows forked.edges [] ("fork" ∷ "report" ∷ "load" ∷ [])
    × (length (fork ∷ report ∷ load ∷ []) ≡ length forked.nodes)
topological_nodes_order_example =
    topological_nodes_order forked (fork ∷ report ∷ load ∷ []) forked_valid forked_order

-- A loading that has failed, and whose failure leads to the report.
abbrev guarded_input : StepInput
guarded_input = record {
  spec = record {
    nodes = record load { on_failure = OnFailure.branch; retry_policy = none } ∷ report ∷ [];
    edges = record (edge_from "load" "report" none true) { trigger = Trigger.failure } ∷ [];
  };
  children = ("load", record load_job { status = JobStatus.failed }) ∷ [];
  now = 110;
  default_max_retries = 0;
}

guarded_valid : validate_dag guarded_input.spec ≡ ok tt
unfolding validate_dag validate_ids validate_edges validate_routes validate_node_routes
    validate_success_routes validate_failure_routes validate_first_match_routes
guarded_valid = refl

plan_workflow_step-ne-stop_iteration_example :
    plan_workflow_step plain guarded_input guarded_input.spec.nodes ≢ raise stop_iteration
plan_workflow_step-ne-stop_iteration_example =
    plan_workflow_step-ne-stop_iteration plain guarded_input guarded_input.spec.nodes guarded_valid
      (inl refl, (inr (inl refl), tt))
