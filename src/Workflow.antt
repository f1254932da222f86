-- ===== src/Workflow.antt =====
-- Workflows: the graph of app/domain/workflow.py, and the records that one step of
-- app/domain/workflow_execution.py reads and writes. Points of time and
-- `wait_seconds` are microseconds, the resolution of the source's clock; the backoff and the timeout
-- of a node are seconds.
pub mod Topology
pub mod Validate
pub mod Validated
pub mod Routed
pub mod Planned
pub mod Child
pub mod Route
pub mod Loop
pub mod Plan
pub mod Outcome
pub mod Retry
pub mod Turn
pub mod Enqueue
mod Tests
use data_ops_studio_v.Base.{ℕ, String, Bool, true, false, Option, List, Dict, Result}
use data_ops_studio_v.Base.Json.{Json, Fields}
use data_ops_studio_v.JobBackend.{JobStatus}

pub record RetryPolicy : Type 0 where
  pub max_retries : ℕ
  pub backoff_seconds : ℕ

pub data OnFailure : Type 0 where
  abort continue branch : OnFailure

pub data Trigger : Type 0 where
  success failure : Trigger

pub record WorkflowNode : Type 0 where
  pub id : String
  pub job_kind : String
  pub payload : Fields
  pub retry_policy : Option RetryPolicy
  pub timeout_seconds : ℕ
  pub on_failure : OnFailure
  pub when : Option String

pub record WorkflowEdge : Type 0 where
  pub source : String
  pub target : String
  pub trigger : Trigger
  pub when : Option String
  pub is_default : Bool

-- `_EdgeDecision`.
pub data EdgeDecision : Type 0 where
  waiting inactive satisfied blocked : EdgeDecision

pub data WorkflowNodeExecStatus : Type 0 where
  waiting running retry_wait success failed skipped cancelled : WorkflowNodeExecStatus

-- `status in TERMINAL_NODE_STATUSES`.
unfoldable pub is_terminal : WorkflowNodeExecStatus → Bool
is_terminal WorkflowNodeExecStatus.success = true
is_terminal WorkflowNodeExecStatus.failed = true
is_terminal WorkflowNodeExecStatus.skipped = true
is_terminal WorkflowNodeExecStatus.cancelled = true
is_terminal _ = false

unfoldable pub status_value : WorkflowNodeExecStatus → String
status_value WorkflowNodeExecStatus.waiting = "waiting"
status_value WorkflowNodeExecStatus.running = "running"
status_value WorkflowNodeExecStatus.retry_wait = "retry_wait"
status_value WorkflowNodeExecStatus.success = "success"
status_value WorkflowNodeExecStatus.failed = "failed"
status_value WorkflowNodeExecStatus.skipped = "skipped"
status_value WorkflowNodeExecStatus.cancelled = "cancelled"

pub record WorkflowChildJob : Type 0 where
  pub node_id : String
  pub job_id : String
  pub status : JobStatus
  pub retry_count : ℕ
  pub finished_at : Option ℕ
  pub error : Option String
  pub error_code : Option String
  pub outputs : Dict Json

pub record WorkflowNodeState : Type 0 where
  pub node_id : String
  pub status : WorkflowNodeExecStatus
  pub job_id : Option String
  pub attempts : ℕ
  pub error : Option String
  pub outputs : Dict Json

pub record WorkflowStepPlan : Type 0 where
  pub node_states : Dict WorkflowNodeState
  pub enqueue_node_ids : List String
  pub retry_job_ids : List String
  pub cancel_job_ids : List String
  pub run_status : Option JobStatus
  pub run_error : Option String
  pub wait_seconds : Option ℕ

-- A missing key, `next` on nothing, a cycle, and a loop of the model that has no fuel left.
pub data PlanError : Type 0 where
  key_error stop_iteration cycle_detected out_of_fuel : PlanError

-- What the step asks of app/domain/workflow_when.py and app/domain/workflow_interpolate.py, under
-- the variables of the run: a condition and a payload, over the outputs of the nodes so far. The
-- exceptions are their messages.
pub record Evaluator : Type 0 where
  pub evaluate_when : Option String → Dict (Dict Json) → Result String Bool
  pub interpolate_payload : Fields → Dict (Dict Json) → Result String (Unit {0})

-- `WorkflowSpec` as far as a step reads it.
pub record WorkflowSpec : Type 0 where
  pub nodes : List WorkflowNode
  pub edges : List WorkflowEdge
