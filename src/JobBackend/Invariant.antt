-- ===== src/JobBackend/Invariant.antt =====
-- What the calls of the job queue keep, on every row and for one id.
use data_ops_studio_v.Base.{
  ℕ, ◌≡◌, refl, String, true, false, Option, none, str_eq, str_eq_iff, any, arith, All, is_some,
  subst,
}
use data_ops_studio_v.JobBackend.{Job, JobRow, JobStatus, ResultRef, Tables, is_pending, is_running}
use data_ops_studio_v.JobBackend.Queue.{has_id, enqueued, claimed_by, cancelled_for, retried}
use data_ops_studio_v.JobBackend.Reaper.{resumed, requeued, failed_stale}
use data_ops_studio_v.JobBackend.Rows.{RowStep, Unique}
use data_ops_studio_v.JobBackend.Calls.{Call, step}
use data_ops_studio_v.JobBackend.Calls.Rule.{step_rule}
use data_ops_studio_v.JobBackend.Calls.Updates.{Fresh, new_row}

-- A running job has its worker, its start and its heartbeat; a pending one has none of them.
abbrev pub Leased : Job → Type 0
Leased j =
    (is_running j.status ≡ true
      → (is_some j.worker_id ≡ true)
        × (is_some j.started_at ≡ true)
        × (is_some j.last_heartbeat ≡ true))
    × (is_pending j.status ≡ true
        → (j.worker_id ≡ none) × (j.started_at ≡ none) × (j.last_heartbeat ≡ none))

abbrev pub IsLeased : Tables → Type 0
IsLeased t = All (λ r. Leased r.job) t.jobs

RowStep-Leased : (j k : Job) → RowStep j k → Leased j → Leased k
unfolding claimed_by cancelled_for retried resumed requeued failed_stale
RowStep-Leased j _ RowStep.kept h = h
RowStep-Leased j _ (RowStep.claimed w now e) h = ground arith
RowStep-Leased j _ (RowStep.published ref e) h = h
RowStep-Leased j _ RowStep.cancel_asked h = h
RowStep-Leased j _ (RowStep.beaten now e) h = ground arith
RowStep-Leased j _ _ h = ground arith

new_row-Leased : (job : Job) → Leased (enqueued job)
unfolding enqueued
new_row-Leased job = ground arith

-- Every call of the queue, by any worker and with any rows locked, keeps the ids distinct and keeps
-- the lease: a running job has a worker, a start and a heartbeat, and a pending job has none.
pub step-IsLeased :
    (t : Tables) (c : Call)
    → Unique t.jobs
    → IsLeased t
    → Unique (step t c).jobs × IsLeased (step t c)
step-IsLeased t c =
    step_rule (λ r. Leased r.job) (λ r j e. RowStep-Leased r.job j e) t c
      (λ job now f. new_row-Leased job)

-- The row of the id, if there is one, is a success with that result.
abbrev pub Succeeded : String → Option ResultRef → JobRow → Type 0
Succeeded id ref r =
    str_eq r.job.id id ≡ true → (r.job.status ≡ JobStatus.success) × (r.job.result_ref ≡ ref)

abbrev IsSuccess : Option ResultRef → Job → Type 0
IsSuccess ref j = (j.status ≡ JobStatus.success) × (j.result_ref ≡ ref)

RowStep-IsSuccess :
    (ref : Option ResultRef) (j k : Job)
    → RowStep j k
    → (k.id ≡ j.id) × (IsSuccess ref j → IsSuccess ref k)
unfolding claimed_by cancelled_for retried resumed requeued failed_stale
RowStep-IsSuccess ref j _ RowStep.kept = (refl, λ h. h)
RowStep-IsSuccess ref j _ RowStep.cancel_asked = (refl, λ h. h)
RowStep-IsSuccess ref j _ (RowStep.claimed w now e) = (refl, λ h. absurd (ground arith))
RowStep-IsSuccess ref j _ (RowStep.completed ref' now e) = (refl, λ h. absurd (ground arith))
RowStep-IsSuccess ref j _ (RowStep.published ref' e) = (refl, λ h. absurd (ground arith))
RowStep-IsSuccess ref j _ (RowStep.failed error now e) = (refl, λ h. absurd (ground arith))
RowStep-IsSuccess ref j _ (RowStep.beaten now e) = (refl, λ h. absurd (ground arith))
RowStep-IsSuccess ref j _ (RowStep.stopped reason now e) = (refl, λ h. absurd (ground arith))
RowStep-IsSuccess ref j _ (RowStep.yielded at e) = (refl, λ h. absurd (ground arith))
RowStep-IsSuccess ref j _ (RowStep.retries now e) = (refl, λ h. absurd (ground arith))
RowStep-IsSuccess ref j _ (RowStep.dropped reason now e) = (refl, λ h. absurd (ground arith))
RowStep-IsSuccess ref j _ (RowStep.run_resumed e) = (refl, λ h. absurd (ground arith))
RowStep-IsSuccess ref j _ (RowStep.job_requeued e) = (refl, λ h. absurd (ground arith))
RowStep-IsSuccess ref j _ (RowStep.job_failed now e) = (refl, λ h. absurd (ground arith))

-- A job that has succeeded stays so, with the result it has, whatever call comes next: no worker,
-- cancellation, retry or reaper takes it back, and its id cannot be enqueued again.
pub step-Succeeded :
    (t : Tables) (c : Call) (id : String) (ref : Option ResultRef)
    → Unique t.jobs
    → any (has_id id) t.jobs ≡ true
    → All (Succeeded id ref) t.jobs
    → All (Succeeded id ref) (step t c).jobs
unfolding enqueued
step-Succeeded t c id ref u there h =
    (step_rule (Succeeded id ref) keep t c (λ job now f same. absurd (taken job now f same)) u h).1
  where
    taken : (job : Job) (now : ℕ) → Fresh t job → str_eq (new_row job now).job.id id ≡ true → ⊥
    taken job now f same =
        let it : job.id ≡ id = (str_eq_iff job.id id).0 same in
        let free : any (has_id id) t.jobs ≡ false =
          subst (λ x. any (has_id x) t.jobs ≡ false) it f in
        cc

    keep :
        (r : JobRow) (j : Job)
        → RowStep r.job j
        → Succeeded id ref r
        → Succeeded id ref (record r { job = j })
    keep r j e p same =
        let (ids, stay) = RowStep-IsSuccess ref r.job j e in stay (p (rw (← ids) same))
