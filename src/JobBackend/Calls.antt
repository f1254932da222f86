-- ===== src/JobBackend/Calls.antt =====
-- The protocol of app/infrastructure/jobbackend/protocol.py as calls on the tables, and the rule by
-- which a fact about single rows is carried over a call.
use data_ops_studio_v.Base.{
  ℕ, suc, ◌+◌, ◌≤◌, ◌≡◌, refl, String, Bool, true, false, not, Option, none, some, List, [], ◌∷◌,
  ◌++◌, ◌&&◌, if◌then◌else◌, str_eq, any, Bool-cases, inl, inr, arith, All, Elem, is_some, Result,
  ok, raise, map, ◌⊎◌, ◌>>=◌, Option-cases, filterb, sym, ◌∙◌, str_eq_flip, ltb, ◌==◌,
}
use data_ops_studio_v.Sql.{update_where, first}
use data_ops_studio_v.JobBackend.{
  Job, JobRow, JobEvent, JobStatus, ResultRef, Tables, Backend, JobBackendError, is_pending,
  is_running, is_retryable,
}
use data_ops_studio_v.JobBackend.Queue.{
  change, has_id, owned, enqueued, enqueue, claimable, before, claimed_by, claim_next, complete,
  update_result_ref, fail, request_cancel, heartbeat, cancelled_for, mark_cancelled,
  requeue_workflow_run, retried, retry_workflow_node, cancel_pending_job, update_with_event,
  update_quietly, same_worker, require_worker_id, or_now,
}
use data_ops_studio_v.JobBackend.Rows.{RowStep, Unique, Unique-row, stale_ids_sound, Elem-filterb}
use data_ops_studio_v.JobBackend.Reaper.{
  resumed, requeued, failed_stale, reap_with, stale_ids, requeue_phase, fail_phase,
  requeue_stale_jobs, fail_stale_jobs, requeue_stale_workflow_runs, reap_steps, stale_run,
  stale_job, stale_retryable, reap_stale_running_jobs,
}
pub mod Updates
pub mod Rule

-- The calls of the queue, each with what it is given.
pub data Call : Type 0 where
  enqueues : Job → (now : ℕ) → Call
  claims : (String → Bool) → (worker : String) → (now : ℕ) → Call
  completes : Backend → (id : String) → ResultRef → (now : ℕ) → Call
  publishes : Backend → (id : String) → ResultRef → Call
  fails : Backend → (id error : String) → (now : ℕ) → Call
  asks_cancel : (id : String) → Call
  beats : (id worker : String) → (now : ℕ) → Call
  marks_cancelled : Backend → (id reason : String) → (now : ℕ) → Call
  requeues_run : Backend → (id : String) → Option ℕ → (now : ℕ) → Call
  retries_node : (id : String) → (now : ℕ) → Call
  cancels_pending : (id reason : String) → (now : ℕ) → Call
  reaps :
      Backend
      → (String → Bool)
      → (String → Bool)
      → (String → Bool)
      → (timeout limit now₁ now₂ now₃ : ℕ) → Call

-- A call that raises leaves the tables as they were.
abbrev pub settle : Tables → Result JobBackendError Tables → Tables
settle t (ok u) = u
settle t (raise e) = t

abbrev pub reaped : {A : Type 0} → Tables → Result JobBackendError (Tables × A) → Tables
reaped t (ok u) = u.0
reaped t (raise e) = t

pub step : Tables → Call → Tables
step t (enqueues job now) = settle t (enqueue job now t)
step t (claims locked w now) = (claim_next locked w now t).0
step t (completes b id ref now) = settle t (complete b id ref now t)
step t (publishes b id ref) = settle t (update_result_ref b id ref t)
step t (fails b id error now) = settle t (fail b id error now t)
step t (asks_cancel id) = request_cancel id t
step t (beats id w now) = heartbeat id w now t
step t (marks_cancelled b id reason now) = settle t (mark_cancelled b id reason now t)
step t (requeues_run b id at now) = settle t (requeue_workflow_run b id at now t)
step t (retries_node id now) = retry_workflow_node id now t
step t (cancels_pending id reason now) = cancel_pending_job id reason now t
step t (reaps b l₁ l₂ l₃ timeout limit n₁ n₂ n₃) =
    reaped t (reap_stale_running_jobs b l₁ l₂ l₃ timeout limit n₁ n₂ n₃ t)
