-- ===== src/Workflow/Child.antt =====
-- `_state_from_child` of app/domain/workflow_execution.py and what it calls.
use data_ops_studio_v.Base.{
  ℕ, ◌+◌, ◌*◌, ◌-◌, String, Bool, true, false, not, Option, none, some, List, [], ◌∷◌, ◌++◌, ◌||◌,
  if◌then◌else◌, str_eq, ltb, ◌==◌, any, Dict, insert,
}
use data_ops_studio_v.Base.Json.{Json, null, float, str, arr, obj, infinite, nan}
use data_ops_studio_v.JobBackend.{JobStatus}
use data_ops_studio_v.Workflow.{
  WorkflowNode, WorkflowChildJob, WorkflowNodeState, WorkflowNodeExecStatus,
}

unfoldable pub is_safe_node_output_value : Json → Bool
is_safe_node_output_value (arr items) = false
is_safe_node_output_value (obj fields) = false
is_safe_node_output_value (float (infinite negative)) = false
is_safe_node_output_value (float nan) = false
is_safe_node_output_value _ = true

-- `NODE_OUTPUT_FIELDS_BY_KIND` of app/domain/workflow_outputs.py less `COMMON_NODE_OUTPUT_FIELDS`.
unfoldable pub node_output_fields : String → Option (List String)
node_output_fields kind =
    if str_eq kind "sql_query" || str_eq kind "sql_explain"
    then some ("result_set_id" ∷ "loaded_rows" ∷ [])
    else if str_eq kind "compare_run"
    then some
        ("run_id" ∷ "same_count" ∷ "only_source_count" ∷ "only_target_count" ∷ "diff_count" ∷ [])
    else if str_eq kind "lineage_analyze"
    then some
        ("run_id" ∷ "cached" ∷ "table_edge_count" ∷ "column_edge_count" ∷ "parse_error_count" ∷ [])
    else if str_eq kind "export_excel"
    then some []
    else if str_eq kind "notify"
    then some ("sent_count" ∷ [])
    else if str_eq kind "sleep"
    then some ("duration_seconds" ∷ [])
    else if str_eq kind "branch"
    then some ("selected_target" ∷ [])
    else none

abbrev pub or_null : Option String → Json
or_null none = null
or_null (some s) = str s

abbrev pub status_text : JobStatus → String
status_text JobStatus.pending = "pending"
status_text JobStatus.running = "running"
status_text JobStatus.success = "success"
status_text JobStatus.failed = "failed"
status_text JobStatus.cancelled = "cancelled"
status_text JobStatus.timeout = "timeout"

unfoldable pub failed_node_outputs : Option String → String → Dict Json
failed_node_outputs job_id error_code =
    ("status", str "failed") ∷ ("job_id", or_null job_id) ∷ ("error_code", str error_code) ∷ []

-- The loop over `child.outputs`: none if an allowed field has an unsafe value.
unfoldable pub filter_outputs : List String → Dict Json → Dict Json → Option (Dict Json)
filter_outputs allowed [] filtered = some filtered
filter_outputs allowed ((key, value) ∷ rest) filtered =
    let skipped = filter_outputs allowed rest filtered in
    let kept = filter_outputs allowed rest (insert key value filtered) in
    if not (any (str_eq key) allowed)
    then skipped
    else if is_safe_node_output_value value
    then kept
    else none

unfoldable pub child_outputs : List String → WorkflowChildJob → Option (Dict Json)
child_outputs allowed child = elim (filter_outputs allowed child.outputs []) [
  | none ↦ none
  | some filtered ↦ some (
      insert "error_code" (or_null child.error_code) (
        insert "job_id" (str child.job_id)
          (insert "status" (str (status_text child.status)) filtered)))
]

-- What the step collects from the children: the jobs to retry, and the times to wait, in
-- microseconds.
pub record Retries : Type 0 where
  pub retry_job_ids : List String
  pub wait_candidates : List ℕ

abbrev pub max_retries_of : WorkflowNode → ℕ → ℕ
max_retries_of node default = elim node.retry_policy [
  | none ↦ default
  | some policy ↦ policy.max_retries
]

-- In microseconds, as the points of time are.
abbrev pub backoff_of : WorkflowNode → ℕ
backoff_of node = elim node.retry_policy [
  | none ↦ 0
  | some policy ↦ policy.backoff_seconds * 1000000
]

abbrev pub finished_or : Option ℕ → ℕ → ℕ
finished_or none now = now
finished_or (some at) now = at

-- The backoff less the time since the end, in microseconds, 0 where the source has 0 or a negative number.
unfoldable pub remaining : WorkflowNode → WorkflowChildJob → ℕ → ℕ
remaining node child now = backoff_of node + finished_or child.finished_at now - now

unfoldable pub retry_or_wait : WorkflowNode → WorkflowChildJob → ℕ → Retries → Retries
retry_or_wait node child now r =
    if remaining node child now == 0
    then record r { retry_job_ids = r.retry_job_ids ++ child.job_id ∷ [] }
    else record r { wait_candidates = r.wait_candidates ++ remaining node child now ∷ [] }

unfoldable pub child_state :
    WorkflowNode
    → WorkflowChildJob
    → WorkflowNodeExecStatus
    → Option String
    → Dict Json
    → WorkflowNodeState
child_state node child status error outputs = record {
  node_id = node.id;
  status = status;
  job_id = some child.job_id;
  attempts = child.retry_count;
  error = error;
  outputs = outputs;
}

-- A child whose job has failed or timed out.
unfoldable pub state_from_failure :
    WorkflowNode → WorkflowChildJob → ℕ → ℕ → Dict Json → Retries → WorkflowNodeState × Retries
state_from_failure node child now default outputs r =
    if ltb child.retry_count (max_retries_of node default)
    then (
      child_state node child WorkflowNodeExecStatus.retry_wait child.error outputs,
      retry_or_wait node child now r,
    )
    else (child_state node child WorkflowNodeExecStatus.failed child.error outputs, r)

unfoldable pub state_from_status :
    JobStatus
    → WorkflowNode
    → WorkflowChildJob
    → ℕ
    → ℕ
    → Dict Json
    → Retries
    → WorkflowNodeState × Retries
state_from_status JobStatus.success node child now default outputs r =
    (child_state node child WorkflowNodeExecStatus.success none outputs, r)
state_from_status JobStatus.cancelled node child now default outputs r =
    (child_state node child WorkflowNodeExecStatus.cancelled child.error outputs, r)
state_from_status JobStatus.failed node child now default outputs r =
    state_from_failure node child now default outputs r
state_from_status JobStatus.timeout node child now default outputs r =
    state_from_failure node child now default outputs r
state_from_status _ node child now default outputs r =
    (child_state node child WorkflowNodeExecStatus.running none outputs, r)

unfoldable pub state_from_child :
    List String → WorkflowNode → WorkflowChildJob → ℕ → ℕ → Retries → WorkflowNodeState × Retries
state_from_child allowed node child now default r = elim (child_outputs allowed child) [
  | none ↦ (
    child_state node child WorkflowNodeExecStatus.failed (some "unsafe_node_output_value")
        (failed_node_outputs (some child.job_id) "unsafe_node_output_value"),
    r,
  )
  | some outputs ↦ state_from_status child.status node child now default outputs r
]
