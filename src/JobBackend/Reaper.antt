-- ===== src/JobBackend/Reaper.antt =====
-- `reap_stale_running_jobs` of app/infrastructure/jobbackend/postgres.py and its three updates.
use data_ops_studio_v.Base.{
  ℕ, ◌+◌, ◌-◌, String, Bool, true, false, not, Option, none, some, List, [], ◌∷◌, ◌&&◌, map,
  if◌then◌else◌, str_eq, ltb, ◌==◌, any, filterb, take, length, Result, ok, ◌>>◌, raise_if,
}
use data_ops_studio_v.Base.Json.{bool, str, Fields, get_field}
use data_ops_studio_v.Sql.{update_where, order_by}
use data_ops_studio_v.JobBackend.{
  Job, JobRow, JobEvent, JobStatus, Tables, Backend, JobBackendError, bad_heartbeat_timeout,
  bad_limit, is_running, is_workflow_run,
}
use data_ops_studio_v.JobBackend.Queue.{change, write_event}

pub record ReapReport : Type 0 where
  pub requeued : ℕ
  pub failed : ℕ

-- `last_heartbeat < now() - timeout`, which is not true of NULL.
abbrev pub expired : ℕ → ℕ → Option ℕ → Bool
expired timeout now none = false
expired timeout now (some at) = ltb (at + timeout) now

-- `COALESCE(payload->>'sql_write', 'false') <> 'true'`, negated.
unfoldable pub sql_write : Fields → Bool
sql_write payload = elim (get_field "sql_write" payload) [
  | none ↦ false
  | some value ↦ elim value [ bool b ↦ b | str s ↦ str_eq s "true" | _ ↦ false ]
]

-- `ORDER BY last_heartbeat ASC`; the rows that are sorted have a heartbeat.
abbrev pub older : JobRow → JobRow → Bool
older r s = elim r.job.last_heartbeat [
  | none ↦ false
  | some a ↦ elim s.job.last_heartbeat [ none ↦ true | some b ↦ ltb a b ]
]

-- The three `stale` queries: of rows that no other transaction has locked.
unfoldable pub stale_run : (String → Bool) → ℕ → ℕ → JobRow → Bool
stale_run locked timeout now r =
    is_running r.job.status
    && is_workflow_run r.job.kind
    && expired timeout now r.job.last_heartbeat
    && not (locked r.job.id)

unfoldable pub stale_job : (String → Bool) → ℕ → ℕ → JobRow → Bool
stale_job locked timeout now r =
    is_running r.job.status
    && not (is_workflow_run r.job.kind)
    && expired timeout now r.job.last_heartbeat
    && not (locked r.job.id)

unfoldable pub stale_retryable : (String → Bool) → ℕ → ℕ → ℕ → JobRow → Bool
stale_retryable locked max_retries timeout now r =
    is_running r.job.status
    && not (is_workflow_run r.job.kind)
    && expired timeout now r.job.last_heartbeat
    && ltb r.job.retry_count max_retries
    && not (sql_write r.job.payload)
    && not (locked r.job.id)

unfoldable pub resumed : Job → Job
resumed j = record j {
  status = JobStatus.pending;
  worker_id = none;
  started_at = none;
  last_heartbeat = none;
}

unfoldable pub requeued : Job → Job
requeued j = record j {
  status = JobStatus.pending;
  worker_id = none;
  started_at = none;
  last_heartbeat = none;
  retry_count = j.retry_count + 1;
  error = none;
}

unfoldable pub failed_stale : ℕ → Job → Job
failed_stale now j = record j {
  status = JobStatus.failed;
  error = some "worker heartbeat timed out";
  finished_at = some now;
}

-- The ids of `WITH stale AS (SELECT id … ORDER BY last_heartbeat LIMIT :limit)`.
unfoldable pub stale_ids : (JobRow → Bool) → ℕ → List JobRow → List String
stale_ids p limit rows = map (λ r. r.job.id) (take limit (order_by older (filterb p rows)))

unfoldable pub write_events : String → List String → List JobEvent → List JobEvent
write_events event_type [] events = events
write_events event_type (id ∷ ids) events =
    write_events event_type ids (write_event id event_type none events)

-- `UPDATE … FROM stale WHERE j.id = stale.id RETURNING j.id`, then one event for each row.
unfoldable pub reap_with : (JobRow → Bool) → (Job → Job) → String → ℕ → Tables → Tables × ℕ
unfolding stale_ids
reap_with p f event_type limit t =
    let ids = stale_ids p limit t.jobs in
    (
      record {
        jobs = update_where (λ r. any (str_eq r.job.id) ids) (change f) t.jobs;
        job_events = write_events event_type ids t.job_events;
      },
      length ids,
    )

unfoldable pub requeue_stale_workflow_runs : (String → Bool) → ℕ → ℕ → ℕ → Tables → Tables × ℕ
requeue_stale_workflow_runs locked timeout limit now =
    reap_with (stale_run locked timeout now) resumed "workflow_run_resumed_after_stale_heartbeat"
      limit

unfoldable pub requeue_stale_jobs : (String → Bool) → ℕ → ℕ → ℕ → ℕ → Tables → Tables × ℕ
requeue_stale_jobs locked max_retries timeout limit now =
    reap_with (stale_retryable locked max_retries timeout now) requeued
      "requeued_after_stale_heartbeat" limit

unfoldable pub fail_stale_jobs : (String → Bool) → ℕ → ℕ → ℕ → Tables → Tables × ℕ
fail_stale_jobs locked timeout limit now =
    reap_with (stale_job locked timeout now) (failed_stale now) "failed_after_stale_heartbeat" limit

-- The second update runs if the backend has a retry budget and the limit is not used up, the third
-- if the limit is still not used up.
unfoldable pub requeue_phase :
    Backend → (String → Bool) → (timeout left now : ℕ) → Tables → Tables × ℕ
requeue_phase b locked timeout left now t =
    if ltb 0 b.job_default_max_retries && ltb 0 left
    then requeue_stale_jobs locked b.job_default_max_retries timeout left now t
    else (t, 0)

unfoldable pub fail_phase : (String → Bool) → (timeout left now : ℕ) → Tables → Tables × ℕ
fail_phase locked timeout left now t =
    if ltb 0 left then fail_stale_jobs locked timeout left now t else (t, 0)

-- The three steps behind the guards; the times at which their transactions run may differ, and so
-- may the rows that others hold.
unfoldable pub reap_steps :
    Backend
    → (String → Bool)
    → (String → Bool)
    → (String → Bool)
    → (timeout limit now₁ now₂ now₃ : ℕ) → Tables
    → Tables × ReapReport
reap_steps b locked₁ locked₂ locked₃ timeout limit now₁ now₂ now₃ t =
    let runs = requeue_stale_workflow_runs locked₁ timeout limit now₁ t in
    let left = limit - runs.1 in
    let jobs = requeue_phase b locked₂ timeout left now₂ runs.0 in
    let failures = fail_phase locked₃ timeout (left - jobs.1) now₃ jobs.0 in
    (failures.0, record { requeued = runs.1 + jobs.1; failed = failures.1 })

unfoldable pub reap_stale_running_jobs :
    Backend
    → (String → Bool)
    → (String → Bool)
    → (String → Bool)
    → (timeout limit now₁ now₂ now₃ : ℕ) → Tables
    → Result JobBackendError (Tables × ReapReport)
reap_stale_running_jobs b locked₁ locked₂ locked₃ timeout limit now₁ now₂ now₃ t = do
  raise_if (timeout == 0) bad_heartbeat_timeout
  raise_if (limit == 0) bad_limit
  ok (reap_steps b locked₁ locked₂ locked₃ timeout limit now₁ now₂ now₃ t)
