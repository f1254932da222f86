-- ===== src/JobBackend/Calls/Rule.antt =====
-- A fact about single rows that every `RowStep` keeps is kept by every call of the queue.
use data_ops_studio_v.Base.{
  ℕ, ◌≡◌, refl, String, Bool, true, List, [], ◌∷◌, ◌&&◌, str_eq, any, Bool-cases, inl, inr, All,
  Elem, ok, ◌>>=◌, Option-cases, filterb, ltb, ◌==◌,
}
use data_ops_studio_v.Sql.{update_where, first}
use data_ops_studio_v.JobBackend.{Job, JobRow, Tables, Backend, is_running}
use data_ops_studio_v.JobBackend.Queue.{
  change, has_id, owned, enqueued, enqueue, claimable, before, claimed_by, claim_next, complete,
  update_result_ref, fail, request_cancel, heartbeat, cancelled_for, mark_cancelled,
  requeue_workflow_run, retried, retry_workflow_node, cancel_pending_job, update_with_event,
  update_quietly, require_worker_id, or_now,
}
use data_ops_studio_v.JobBackend.Rows.{RowStep, Unique, stale_ids_sound}
use data_ops_studio_v.JobBackend.Reaper.{
  resumed, requeued, failed_stale, reap_with, stale_ids, requeue_phase, fail_phase,
  requeue_stale_jobs, fail_stale_jobs, requeue_stale_workflow_runs, reap_steps,
  reap_stale_running_jobs,
}
use data_ops_studio_v.JobBackend.Calls.{
  Call, enqueues, claims, completes, publishes, fails, asks_cancel, beats, marks_cancelled,
  requeues_run, retries_node, cancels_pending, reaps, settle, step,
}
use data_ops_studio_v.JobBackend.Calls.Updates.{
  All-snoc, Fresh, Unique-snoc, Unique-update, and_right, claim_step, new_row, owned_running,
  retryable_running, stale_job_running, stale_run_running,
}

module _ (P : JobRow → Type 0)
    (keep : (r : JobRow) (j : Job) → RowStep r.job j → P r → P (record r { job = j })) where
  abbrev Good : List JobRow → List JobRow → Type 0
  Good rows after = Unique rows → All P rows → Unique after × All P after

  All-update :
      (p : JobRow → Bool) (f : Job → Job) (rows : List JobRow)
      → ((r : JobRow) → Elem r rows → p r ≡ true → RowStep r.job (f r.job))
      → All P rows
      → All P (update_where p (change f) rows)
  unfolding update_where
  All-update p f [] steps h = tt
  All-update p f (r ∷ rows) steps h =
      let rest = All-update p f rows (λ s m. steps s (inr m)) h.1 in
      elim (Bool-cases (p r)) [
        | inl hit ↦ rw hit (keep r (f r.job) (steps r (inl refl) hit) h.0, rest)
        | inr miss ↦ rw miss (h.0, rest)
      ]

  Good-update :
      (p : JobRow → Bool) (f : Job → Job) (rows : List JobRow)
      → ((j : Job) → (f j).id ≡ j.id)
      → ((r : JobRow) → Unique rows → Elem r rows → p r ≡ true → RowStep r.job (f r.job))
      → Good rows (update_where p (change f) rows)
  Good-update p f rows same steps u h =
      (Unique-update p f rows same u, All-update p f rows (λ r. steps r u) h)

  Good-refl : (rows : List JobRow) → Good rows rows
  Good-refl rows u h = (u, h)

  Good-trans : (a b c : List JobRow) → Good a b → Good b c → Good a c
  Good-trans a b c f g u h = let (u', h') = f u h in g u' h'

  Good-owned :
      (id w : String) (f : Job → Job) (rows : List JobRow)
      → ((j : Job) → (f j).id ≡ j.id)
      → ((j : Job) → is_running j.status ≡ true → RowStep j (f j))
      → Good rows (update_where (owned id w) (change f) rows)
  Good-owned id w f rows same steps =
      Good-update (owned id w) f rows same (λ r u m e. steps r.job (owned_running id w r e))

  Good-reap :
      (p : JobRow → Bool) (f : Job → Job) (event : String) (limit : ℕ) (t : Tables)
      → ((j : Job) → (f j).id ≡ j.id)
      → ((r : JobRow) → p r ≡ true → RowStep r.job (f r.job))
      → Good t.jobs (reap_with p f event limit t).0.jobs
  unfolding reap_with
  Good-reap p f event limit t same steps =
      Good-update (λ r. any (str_eq r.job.id) (stale_ids p limit t.jobs)) f t.jobs same
        (λ r u m e. steps r (stale_ids_sound p limit t.jobs r u m e))

  Good-claim :
      (locked : String → Bool) (w : String) (now : ℕ) (t : Tables)
      → Good t.jobs (claim_next locked w now t).0.jobs
  unfolding claim_next claimed_by
  Good-claim locked w now t =
      elim (Option-cases (first before (filterb (claimable locked now) t.jobs))) [
        | inl none_left ↦ rw (none_left, claim_next) (Good-refl t.jobs)
        | inr (r, found) ↦
            rw (found, claim_next)
              (Good-update (has_id r.job.id) (claimed_by w now) t.jobs (λ j. refl)
                (λ s u m e. claim_step locked w now t r s u m e found))
      ]

  Good-enqueue :
      (job : Job) (now : ℕ) (t : Tables)
      → ((Fresh t job) → P (new_row job now))
      → Good t.jobs (settle t (enqueue job now t)).jobs
  unfolding enqueue enqueued
  Good-enqueue job now t new = elim (Bool-cases (any (has_id job.id) t.jobs)) [
    | inl taken ↦ rw taken (Good-refl t.jobs)
    | inr free ↦ rw free (λ u h. (
      Unique-snoc t.jobs (new_row job now) u free,
      All-snoc P t.jobs (new_row job now) h (new free),
    ))
  ]

  Good-requeue_phase :
      (b : Backend) (locked : String → Bool) (timeout left now : ℕ) (t : Tables)
      → Good t.jobs (requeue_phase b locked timeout left now t).0.jobs
  unfolding requeue_phase requeue_stale_jobs requeued
  Good-requeue_phase b locked timeout left now t =
      elim (Bool-cases (ltb 0 b.job_default_max_retries && ltb 0 left)) [
        | inl go ↦ rw go (
            Good-reap _ requeued "requeued_after_stale_heartbeat" left t (λ j. refl)
              (λ r e. RowStep.job_requeued (retryable_running locked _ timeout now r e)))
        | inr skip ↦ rw skip (Good-refl t.jobs)
      ]

  Good-fail_phase :
      (locked : String → Bool) (timeout left now : ℕ) (t : Tables)
      → Good t.jobs (fail_phase locked timeout left now t).0.jobs
  unfolding fail_phase fail_stale_jobs failed_stale
  Good-fail_phase locked timeout left now t = elim (Bool-cases (ltb 0 left)) [
    | inl go ↦ rw go (
        Good-reap _ (failed_stale now) "failed_after_stale_heartbeat" left t (λ j. refl)
          (λ r e. RowStep.job_failed now (stale_job_running locked timeout now r e)))
    | inr skip ↦ rw skip (Good-refl t.jobs)
  ]

  Good-requeue_runs :
      (locked : String → Bool) (timeout limit now : ℕ) (t : Tables)
      → Good t.jobs (requeue_stale_workflow_runs locked timeout limit now t).0.jobs
  unfolding requeue_stale_workflow_runs resumed
  Good-requeue_runs locked timeout limit now t =
      Good-reap _ resumed "workflow_run_resumed_after_stale_heartbeat" limit t (λ j. refl)
        (λ r e. RowStep.run_resumed (stale_run_running locked timeout now r e))

  Good-reap_steps :
      (b : Backend) (l₁ l₂ l₃ : String → Bool) (timeout limit n₁ n₂ n₃ : ℕ) (t : Tables)
      → Good t.jobs (reap_steps b l₁ l₂ l₃ timeout limit n₁ n₂ n₃ t).0.jobs
  unfolding reap_steps
  Good-reap_steps b l₁ l₂ l₃ timeout limit n₁ n₂ n₃ t u h =
      let (u₁, h₁) = Good-requeue_runs l₁ timeout limit n₁ t u h in
      let (u₂, h₂) = Good-requeue_phase b l₂ timeout _ n₂ _ u₁ h₁ in
      Good-fail_phase l₃ timeout _ n₃ _ u₂ h₂

  Good-worker :
      (b : Backend) (t : Tables) (g : String → Tables)
      → ((w : String) → Good t.jobs (g w).jobs)
      → Good t.jobs (settle t (require_worker_id b >>= λ w. ok (g w))).jobs
  Good-worker b t g good = elim (Option-cases b.worker_id) [
    | inl nobody ↦ rw nobody (Good-refl t.jobs)
    | inr (w, e) ↦ rw e (good w)
  ]

  -- A fact about single rows that every `RowStep` keeps, and that a new row has, outlasts any call;
  -- and the primary key outlasts it too.
  pub step_rule :
      (t : Tables) (c : Call)
      → ((job : Job) (now : ℕ) → Fresh t job → P (new_row job now))
      → Good t.jobs (step t c).jobs
  unfolding step complete update_result_ref fail mark_cancelled requeue_workflow_run heartbeat
      request_cancel retry_workflow_node cancel_pending_job update_with_event update_quietly
      cancelled_for retried reap_stale_running_jobs
  step_rule t (enqueues job now) new = Good-enqueue job now t (new job now)
  step_rule t (claims locked w now) new = Good-claim locked w now t
  step_rule t (completes b id ref now) new =
      Good-worker b t _
        (λ w. Good-owned id w _ t.jobs (λ j. refl) (λ j e. RowStep.completed ref now e))
  step_rule t (publishes b id ref) new =
      Good-worker b t _ (λ w. Good-owned id w _ t.jobs (λ j. refl) (λ j e. RowStep.published ref e))
  step_rule t (fails b id error now) new =
      Good-worker b t _
        (λ w. Good-owned id w _ t.jobs (λ j. refl) (λ j e. RowStep.failed error now e))
  step_rule t (asks_cancel id) new =
      Good-update (has_id id) _ t.jobs (λ j. refl) (λ r u m e. RowStep.cancel_asked)
  step_rule t (beats id w now) new =
      Good-owned id w _ t.jobs (λ j. refl) (λ j e. RowStep.beaten now e)
  step_rule t (marks_cancelled b id reason now) new =
      Good-worker b t _
        (λ w. Good-owned id w _ t.jobs (λ j. refl) (λ j e. RowStep.stopped reason now e))
  step_rule t (requeues_run b id at now) new =
      Good-worker b t _
        (λ w. Good-owned id w _ t.jobs (λ j. refl) (λ j e. RowStep.yielded (or_now at now) e))
  step_rule t (retries_node id now) new =
      Good-update _ _ t.jobs (λ j. refl)
        (λ r u m e. RowStep.retries now (and_right (has_id id r) _ e))
  step_rule t (cancels_pending id reason now) new =
      Good-update _ _ t.jobs (λ j. refl)
        (λ r u m e. RowStep.dropped reason now (and_right (has_id id r) _ e))
  step_rule t (reaps b l₁ l₂ l₃ timeout limit n₁ n₂ n₃) new = elim (Bool-cases (timeout == 0)) [
    | inl none_given ↦ rw none_given (Good-refl t.jobs)
    | inr given ↦ elim (Bool-cases (limit == 0)) [
      | inl empty ↦ rw (given, empty) (Good-refl t.jobs)
      | inr some_limit ↦
          rw (given, some_limit) (Good-reap_steps b l₁ l₂ l₃ timeout limit n₁ n₂ n₃ t)
    ]
  ]
