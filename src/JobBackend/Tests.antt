-- ===== src/JobBackend/Tests.antt =====
-- Runs of the job queue at concrete inputs.
use data_ops_studio_v.Base.{
  ◌≡◌, ◌≤◌, ◌+◌, refl, String, true, false, none, some, [], ◌∷◌, arith, All, Elem, inl, inr, Bool,
  filterb, ◌⊎◌,
}
use data_ops_studio_v.Base.Json.{pos, bool, end, field, get_field}
use data_ops_studio_v.JobBackend.{Job, JobRow, JobKind, JobStatus, Tables, Backend}
use data_ops_studio_v.JobBackend.Queue.{claimable, claim_next, claimed_by, before}
use data_ops_studio_v.JobBackend.Reaper.{reap_steps, requeue_stale_jobs, sql_write}
use data_ops_studio_v.JobBackend.Rows.{Unique}
use data_ops_studio_v.JobBackend.Calls.{step, claims, reaps}
use data_ops_studio_v.JobBackend.Invariant.{IsLeased, Succeeded, step-IsLeased, step-Succeeded}
use data_ops_studio_v.JobBackend.Claim.{claim_next_best}
use data_ops_studio_v.JobBackend.Limits.{reap-le_limit, write_not_requeued}

abbrev waiting : Job
waiting = record {
  id = "j1";
  kind = JobKind.sql_query;
  status = JobStatus.pending;
  owner_user_id = "u";
  project_id = "p";
  datasource_ids = [];
  priority = pos 5;
  available_at = 0;
  timeout_seconds = 60;
  resource_profile = record { memory_limit_mb = none; timeout_seconds = none };
  result_ref = none;
  audit_id = "a";
  worker_id = none;
  last_heartbeat = none;
  started_at = none;
  finished_at = none;
  cancel_requested = false;
  cancel_reason = none;
  error = none;
  error_code = none;
  retry_count = 0;
  payload = end;
  parent_workflow_run_id = none;
}

abbrev writing : Job
writing = record waiting {
  id = "j2";
  status = JobStatus.running;
  worker_id = some "w1";
  started_at = some 1;
  last_heartbeat = some 1;
  payload = field "sql_write" (bool true) end;
}

abbrev done : Job
done = record waiting { id = "j3"; status = JobStatus.success; finished_at = some 9 }

abbrev table : Tables
table = record {
  jobs =
      record { job = waiting; created_at = 1 }
      ∷ record { job = writing; created_at = 0 }
      ∷ record { job = done; created_at = 0 }
      ∷ [];
  job_events = [];
}

abbrev backend : Backend
backend = record { worker_id = some "w1"; job_default_max_retries = 3 }

abbrev unlocked : String → Bool
unlocked id = false

table-Unique : Unique table.jobs
table-Unique = ((refl, (refl, tt)), ((refl, tt), (tt, tt)))

table-IsLeased : IsLeased table
table-IsLeased = ground arith

step-IsLeased_example :
    Unique (step table (claims unlocked "w2" 10)).jobs
    × IsLeased (step table (claims unlocked "w2" 10))
step-IsLeased_example = step-IsLeased table (claims unlocked "w2" 10) table-Unique table-IsLeased

step-Succeeded_example :
    All
      (Succeeded "j3" none)
      (step table (reaps backend unlocked unlocked unlocked 30 10 100 100 100)).jobs
step-Succeeded_example =
    step-Succeeded table (reaps backend unlocked unlocked unlocked 30 10 100 100 100) "j3" none
      table-Unique refl (ground arith)

reap-le_limit_example :
    (reap_steps backend unlocked unlocked unlocked 30 1 100 100 100 table).1.requeued
      + (reap_steps backend unlocked unlocked unlocked 30 1 100 100 100 table).1.failed
    ≤ 1
reap-le_limit_example = reap-le_limit backend unlocked unlocked unlocked 30 1 100 100 100 table

write_not_requeued_example :
    Elem
      (record { job = writing; created_at = 0 })
      (requeue_stale_jobs unlocked 3 30 10 100 table).0.jobs
unfolding sql_write get_field
write_not_requeued_example =
    write_not_requeued unlocked 3 30 10 100 table (record { job = writing; created_at = 0 })
      table-Unique (inr (inl refl)) refl

claim_next_best_example :
    ((filterb (claimable unlocked 10) table.jobs ≡ [])
      × (claim_next unlocked "w2" 10 table ≡ (table, none)))
    ⊎ ((r : JobRow) × Elem r table.jobs
        × (claimable unlocked 10 r ≡ true)
        × All (λ s. before s r ≡ false) (filterb (claimable unlocked 10) table.jobs)
        × ((claim_next unlocked "w2" 10 table).1 ≡ some (claimed_by "w2" 10 r.job)))
claim_next_best_example = claim_next_best unlocked "w2" 10 table
