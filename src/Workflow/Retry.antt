-- ===== src/Workflow/Retry.antt =====
-- Retries of the node jobs of a workflow.
use data_ops_studio_v.Base.{
  ℕ, ◌+◌, ◌-◌, ◌==◌, ◌≤◌, ◌<◌, ◌≡◌, refl, String, true, List, [], ◌∷◌, ◌++◌, arith, Dict,
  Bool-cases, Option-cases, inl, inr, ◌⊎◌, ltb, is_some,
}
use data_ops_studio_v.Base.Json.{Json}
use data_ops_studio_v.JobBackend.{JobStatus, is_retryable}
use data_ops_studio_v.Workflow.{
  WorkflowNode, WorkflowChildJob, WorkflowNodeState, WorkflowNodeExecStatus,
}
use data_ops_studio_v.Workflow.Child.{
  Retries, state_from_child, state_from_status, state_from_failure, retry_or_wait, remaining,
  child_state, child_outputs, max_retries_of, backoff_of, finished_or,
}

-- Whether the backoff is over: the job is put on the list, or the time that is left is.
abbrev pub Backoff : WorkflowNode → WorkflowChildJob → ℕ → Retries → Retries → Type 0
Backoff node child now r r' =
    let due = backoff_of node + finished_or child.finished_at now in
    ((due ≤ now) × (r' ≡ record r { retry_job_ids = r.retry_job_ids ++ child.job_id ∷ [] }))
    ⊎ ((s : ℕ) × (now + s ≡ due)
        × (1 ≤ s)
        × (r' ≡ record r { wait_candidates = r.wait_candidates ++ s ∷ [] }))

retry_or_wait-Backoff :
    (node : WorkflowNode) (child : WorkflowChildJob) (now : ℕ) (r : Retries)
    → Backoff node child now r (retry_or_wait node child now r)
unfolding retry_or_wait remaining
retry_or_wait-Backoff node child now r =
    elim (Bool-cases (backoff_of node + finished_or child.finished_at now - now == 0)) [
      | inl due ↦ rw due (inl (ground arith, refl))
      | inr early ↦ rw early (
          inr (
            backoff_of node + finished_or child.finished_at now - now,
            ground arith,
            ground arith,
            refl,
          ))
    ]

-- What becomes of a job that has failed or timed out.
abbrev pub Retried :
    WorkflowNode
    → WorkflowChildJob
    → (now default : ℕ) → Retries
    → WorkflowNodeState × Retries
    → Type 0
Retried node child now default r (state, r') =
    ((max_retries_of node default ≤ child.retry_count)
      × (state.status ≡ WorkflowNodeExecStatus.failed)
      × (r' ≡ r))
    ⊎ ((child.retry_count < max_retries_of node default)
        × (state.status ≡ WorkflowNodeExecStatus.retry_wait)
        × Backoff node child now r r')

state_from_failure-Retried :
    (node : WorkflowNode) (child : WorkflowChildJob) (now default : ℕ) (outputs : Dict Json)
    (r : Retries)
    → Retried node child now default r (state_from_failure node child now default outputs r)
unfolding state_from_failure child_state
state_from_failure-Retried node child now default outputs r =
    elim (Bool-cases (ltb child.retry_count (max_retries_of node default))) [
      | inl left ↦ rw left (inr (ground arith, refl, retry_or_wait-Backoff node child now r))
      | inr spent ↦ rw spent (inl (ground arith, refl, refl))
    ]

state_from_status-Retried :
    (status : JobStatus) (node : WorkflowNode) (child : WorkflowChildJob) (now default : ℕ)
    (outputs : Dict Json) (r : Retries)
    → is_retryable status ≡ true
    → Retried node child now default r (state_from_status status node child now default outputs r)
unfolding state_from_status
state_from_status-Retried JobStatus.failed node child now default outputs r h =
    state_from_failure-Retried node child now default outputs r
state_from_status-Retried JobStatus.timeout node child now default outputs r h =
    state_from_failure-Retried node child now default outputs r
state_from_status-Retried JobStatus.pending node child now default outputs r h =
    absurd (ground arith)
state_from_status-Retried JobStatus.running node child now default outputs r h =
    absurd (ground arith)
state_from_status-Retried JobStatus.success node child now default outputs r h =
    absurd (ground arith)
state_from_status-Retried JobStatus.cancelled node child now default outputs r h =
    absurd (ground arith)

-- A node whose job has failed or timed out, with outputs that are safe, has failed once the job has
-- used up its retries. Before that it waits for a retry, and the job is put on the list of retries
-- exactly when the backoff since its end is over; else the time that is left is noted, to the
-- microsecond.
pub state_from_child-Retried :
    (allowed : List String) (node : WorkflowNode) (child : WorkflowChildJob) (now default : ℕ)
    (r : Retries)
    → is_retryable child.status ≡ true
    → is_some (child_outputs allowed child) ≡ true
    → Retried node child now default r (state_from_child allowed node child now default r)
unfolding state_from_child
state_from_child-Retried allowed node child now default r ended safe =
    elim (Option-cases (child_outputs allowed child)) [
      | inl unsafe ↦ absurd (let e = (rw unsafe at safe) in ground arith)
      | inr (outputs, e) ↦
          rw (e, state_from_child)
            (state_from_status-Retried child.status node child now default outputs r ended)
    ]
