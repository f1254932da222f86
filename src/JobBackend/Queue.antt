-- ===== src/JobBackend/Queue.antt =====
-- `PostgresJobBackend` but for the reaper. An operation is one transaction at a time `now`; rows
-- that another transaction holds are `locked`, and `SKIP LOCKED` passes over them.
use Prim.Native.String.{◌++◌ as append}
use data_ops_studio_v.Base.{
  ℕ, ◌+◌, String, Bool, true, false, not, Option, none, some, List, [], ◌∷◌, ◌++◌, ◌&&◌, ◌||◌,
  if◌then◌else◌, str_eq, ltb, leb, any, filterb, Result, ok, raise, ◌>>=◌, ◌>>◌, raise_if,
}
use data_ops_studio_v.Base.Json.{ℤ, pos, negsuc}
use data_ops_studio_v.Sql.{update_where, first}
use data_ops_studio_v.JobBackend.{
  Job, JobRow, JobEvent, JobStatus, ResultRef, Tables, Backend, JobBackendError, requires_worker_id,
  integrity_error, is_pending, is_running, is_retryable,
}

abbrev pub Reply : Type 0
Reply = Result JobBackendError Tables

unfoldable pub write_event : String → String → Option String → List JobEvent → List JobEvent
write_event job_id event_type message events =
    events ++ record { job_id = job_id; event_type = event_type; message = message } ∷ []

-- The row's job, changed.
abbrev pub change : (Job → Job) → JobRow → JobRow
change f r = record r { job = f r.job }

abbrev pub has_id : String → JobRow → Bool
has_id id r = str_eq r.job.id id

abbrev pub same_worker : String → Option String → Bool
same_worker w none = false
same_worker w (some v) = str_eq v w

-- `WHERE id = … AND worker_id = … AND status = 'running'`.
unfoldable pub owned : String → String → JobRow → Bool
owned id w r = str_eq r.job.id id && same_worker w r.job.worker_id && is_running r.job.status

-- `UPDATE jobs`, with an event if a row has changed.
unfoldable pub update_with_event :
    (JobRow → Bool) → (Job → Job) → String → String → Option String → Tables → Tables
update_with_event p f job_id event_type message t = record t {
  jobs = update_where p (change f) t.jobs;
  job_events =
      if any p t.jobs then write_event job_id event_type message t.job_events else t.job_events;
}

unfoldable pub update_quietly : (JobRow → Bool) → (Job → Job) → Tables → Tables
update_quietly p f t = record t { jobs = update_where p (change f) t.jobs }

abbrev pub require_worker_id : Backend → Result JobBackendError String
require_worker_id b = elim b.worker_id [ none ↦ raise requires_worker_id | some w ↦ ok w ]

-- The row that `enqueue` inserts: `error_code` and the worker's columns are left empty.
unfoldable pub enqueued : Job → Job
enqueued job = record job {
  status = JobStatus.pending;
  worker_id = none;
  last_heartbeat = none;
  started_at = none;
  finished_at = none;
  error_code = none;
}

unfoldable pub enqueue : Job → ℕ → Tables → Reply
enqueue job now t = do
  raise_if (any (has_id job.id) t.jobs) integrity_error
  ok (record {
    jobs = t.jobs ++ record { job = enqueued job; created_at = now } ∷ [];
    job_events = write_event job.id "enqueued" none t.job_events;
  })

abbrev pub lt_ℤ : ℤ → ℤ → Bool
lt_ℤ (pos a) (pos b) = ltb a b
lt_ℤ (pos a) (negsuc b) = false
lt_ℤ (negsuc a) (pos b) = true
lt_ℤ (negsuc a) (negsuc b) = ltb b a

-- `ORDER BY priority DESC, created_at ASC`.
unfoldable pub before : JobRow → JobRow → Bool
before r s =
    lt_ℤ s.job.priority r.job.priority
    || (not (lt_ℤ r.job.priority s.job.priority) && ltb r.created_at s.created_at)

unfoldable pub claimable : (String → Bool) → ℕ → JobRow → Bool
claimable locked now r =
    is_pending r.job.status && leb r.job.available_at now && not (locked r.job.id)

unfoldable pub claimed_by : String → ℕ → Job → Job
claimed_by w now j = record j {
  status = JobStatus.running;
  worker_id = some w;
  started_at = some now;
  last_heartbeat = some now;
}

unfoldable pub claim_next : (String → Bool) → String → ℕ → Tables → Tables × Option Job
claim_next locked w now t = elim (first before (filterb (claimable locked now) t.jobs)) [
  | none ↦ (t, none)
  | some r ↦ (
    record {
      jobs = update_where (has_id r.job.id) (change (claimed_by w now)) t.jobs;
      job_events = write_event r.job.id "claimed" (some (append "worker=" w)) t.job_events;
    },
    some (claimed_by w now r.job),
  )
]

unfoldable pub complete : Backend → String → ResultRef → ℕ → Tables → Reply
complete b id ref now t = do
  w ← require_worker_id b
  ok (
      update_with_event (owned id w)
        (λ j. record j {
          status = JobStatus.success;
          result_ref = some ref;
          finished_at = some now;
          error = none;
        })
        id "completed" none t)

unfoldable pub update_result_ref : Backend → String → ResultRef → Tables → Reply
update_result_ref b id ref t = do
  w ← require_worker_id b
  ok (update_quietly (owned id w) (λ j. record j { result_ref = some ref }) t)

unfoldable pub fail : Backend → String → String → ℕ → Tables → Reply
fail b id error now t = do
  w ← require_worker_id b
  ok (
      update_with_event (owned id w)
        (λ j. record j { status = JobStatus.failed; error = some error; finished_at = some now }) id
        "failed" (some error) t)

unfoldable pub request_cancel : String → Tables → Tables
request_cancel id t = record {
  jobs =
      update_where (has_id id)
        (change (λ j. record j { cancel_requested = true; cancel_reason = some "requested" }))
        t.jobs;
  job_events = write_event id "cancel_requested" none t.job_events;
}

unfoldable pub heartbeat : String → String → ℕ → Tables → Tables
heartbeat id w now t = update_quietly (owned id w) (λ j. record j { last_heartbeat = some now }) t

unfoldable pub cancelled_for : String → ℕ → Job → Job
cancelled_for reason now j = record j {
  status = JobStatus.cancelled;
  cancel_requested = true;
  cancel_reason = some reason;
  finished_at = some now;
}

unfoldable pub mark_cancelled : Backend → String → String → ℕ → Tables → Reply
mark_cancelled b id reason now t = do
  w ← require_worker_id b
  ok (update_with_event (owned id w) (cancelled_for reason now) id "cancelled" (some reason) t)

unfoldable pub find_job : String → List JobRow → Option Job
find_job id [] = none
find_job id (r ∷ rs) = if has_id id r then some r.job else find_job id rs

unfoldable pub get_job : String → Tables → Option Job
get_job id t = find_job id t.jobs

unfoldable pub is_cancel_requested : String → Tables → Bool
is_cancel_requested id t = elim (get_job id t) [ none ↦ false | some j ↦ j.cancel_requested ]

abbrev pub or_now : Option ℕ → ℕ → ℕ
or_now none now = now
or_now (some at) now = at

unfoldable pub requeue_workflow_run : Backend → String → Option ℕ → ℕ → Tables → Reply
requeue_workflow_run b id available_at now t = do
  w ← require_worker_id b
  ok (
      update_quietly (owned id w)
        (λ j. record j {
          status = JobStatus.pending;
          worker_id = none;
          started_at = none;
          last_heartbeat = none;
          available_at = or_now available_at now;
        })
        t)

unfoldable pub retried : ℕ → Job → Job
retried now j = record j {
  status = JobStatus.pending;
  worker_id = none;
  started_at = none;
  last_heartbeat = none;
  finished_at = none;
  error = none;
  error_code = none;
  available_at = now;
  retry_count = j.retry_count + 1;
}

unfoldable pub retry_workflow_node : String → ℕ → Tables → Tables
retry_workflow_node id now t =
    update_with_event (λ r. has_id id r && is_retryable r.job.status) (retried now) id
      "workflow_node_retry" none t

unfoldable pub cancel_pending_job : String → String → ℕ → Tables → Tables
cancel_pending_job id reason now t =
    update_with_event (λ r. has_id id r && is_pending r.job.status) (cancelled_for reason now) id
      "cancelled" (some reason) t
