-- ===== src/JobBackend/Limits.antt =====
-- What the reaper of app/infrastructure/jobbackend/postgres.py may do at most.
use data_ops_studio_v.Base.{
  ℕ, zero, suc, ◌+◌, ◌≤◌, ◌≡◌, refl, ap, String, Bool, true, false, List, [], ◌∷◌, ◌&&◌, ltb, any,
  str_eq, length, take, map, Bool-cases, inl, inr, arith, Elem, filterb,
}
use data_ops_studio_v.Sql.{update_where, order_by}
use data_ops_studio_v.JobBackend.{Job, JobRow, Tables, Backend}
use data_ops_studio_v.JobBackend.Queue.{change}
use data_ops_studio_v.JobBackend.Reaper.{
  sql_write, older, stale_ids, stale_retryable, reap_with, requeue_stale_workflow_runs,
  requeue_stale_jobs, fail_stale_jobs, requeue_phase, fail_phase, reap_steps, requeued,
  failed_stale,
}
use data_ops_studio_v.JobBackend.Rows.{Unique, stale_ids_sound}

length-take-le : {A : Type 0} (n : ℕ) (rows : List A) → length (take n rows) ≤ n
length-take-le zero rows = omega arith
length-take-le (suc n) [] = omega arith
length-take-le (suc n) (r ∷ rows) = omega (arith, length-take-le n rows)

length-map : {A B : Type 0} (f : A → B) (rows : List A) → length (map f rows) ≡ length rows
length-map f [] = refl
length-map f (r ∷ rows) = ap suc (length-map f rows)

reap_with-le :
    (p : JobRow → Bool) (f : Job → Job) (event : String) (limit : ℕ) (t : Tables)
    → (reap_with p f event limit t).1 ≤ limit
unfolding reap_with stale_ids
reap_with-le p f event limit t =
    rw (length-map (λ r. r.job.id) (take limit (order_by older (filterb p t.jobs))))
      (length-take-le limit _)

requeue_phase-le :
    (b : Backend) (locked : String → Bool) (timeout left now : ℕ) (t : Tables)
    → (requeue_phase b locked timeout left now t).1 ≤ left
unfolding requeue_phase requeue_stale_jobs
requeue_phase-le b locked timeout left now t =
    elim (Bool-cases (ltb 0 b.job_default_max_retries && ltb 0 left)) [
      | inl go ↦ rw go (reap_with-le _ requeued "requeued_after_stale_heartbeat" left t)
      | inr skip ↦ rw skip (omega arith)
    ]

fail_phase-le :
    (locked : String → Bool) (timeout left now : ℕ) (t : Tables)
    → (fail_phase locked timeout left now t).1 ≤ left
unfolding fail_phase fail_stale_jobs
fail_phase-le locked timeout left now t = elim (Bool-cases (ltb 0 left)) [
  | inl go ↦ rw go (reap_with-le _ (failed_stale now) "failed_after_stale_heartbeat" left t)
  | inr skip ↦ rw skip (omega arith)
]

-- One call of the reaper touches at most `limit` rows: those it reports as requeued and those it
-- reports as failed, together.
pub reap-le_limit :
    (b : Backend) (l₁ l₂ l₃ : String → Bool) (timeout limit n₁ n₂ n₃ : ℕ) (t : Tables)
    → (reap_steps b l₁ l₂ l₃ timeout limit n₁ n₂ n₃ t).1.requeued
        + (reap_steps b l₁ l₂ l₃ timeout limit n₁ n₂ n₃ t).1.failed
      ≤ limit
unfolding reap_steps requeue_stale_workflow_runs
reap-le_limit b l₁ l₂ l₃ timeout limit n₁ n₂ n₃ t = omega (
  arith,
  reap_with-le _ _ _ limit t,
  requeue_phase-le b l₂ timeout _ n₂ _,
  fail_phase-le l₃ timeout _ n₃ _,
)

write_not_retryable :
    (locked : String → Bool) (budget timeout now : ℕ) (r : JobRow)
    → sql_write r.job.payload ≡ true
    → stale_retryable locked budget timeout now r ≡ false
unfolding stale_retryable
write_not_retryable locked budget timeout now r w = ground arith

Elem-update :
    (p : JobRow → Bool) (f : JobRow → JobRow) (r : JobRow) (rows : List JobRow)
    → p r ≡ false
    → Elem r rows
    → Elem r (update_where p f rows)
unfolding update_where
Elem-update p f r [] miss m = m
Elem-update p f r (s ∷ rows) miss (inl e) = inl (rw (← e, miss) refl)
Elem-update p f r (s ∷ rows) miss (inr m) = inr (Elem-update p f r rows miss m)

-- The reaper never puts a job back that writes: a row whose payload says `sql_write` stands in the
-- table after the retry update as it stood before, however stale it is and whatever its budget.
pub write_not_requeued :
    (locked : String → Bool) (budget timeout limit now : ℕ) (t : Tables) (r : JobRow)
    → Unique t.jobs
    → Elem r t.jobs
    → sql_write r.job.payload ≡ true
    → Elem r (requeue_stale_jobs locked budget timeout limit now t).0.jobs
unfolding requeue_stale_jobs reap_with
write_not_requeued locked budget timeout limit now t r u m w =
    let p = stale_retryable locked budget timeout now in
    elim (Bool-cases (any (str_eq r.job.id) (stale_ids p limit t.jobs))) [
      | inl hit ↦
          let yes_p : p r ≡ true = stale_ids_sound p limit t.jobs r u m hit in
          let no_p : p r ≡ false = write_not_retryable locked budget timeout now r w in absurd (cc)
      | inr miss ↦ Elem-update _ (change requeued) r t.jobs miss m
    ]
