-- ===== src/JobBackend/Calls/Updates.antt =====
-- Single updates of the jobs table: what they leave of the primary key, and which rows they change.
use data_ops_studio_v.Base.{
  ℕ, ◌≡◌, String, Bool, true, false, some, List, [], ◌∷◌, ◌++◌, ◌&&◌, if◌then◌else◌, str_eq, any,
  Bool-cases, inl, inr, arith, All, Elem, Option-cases, filterb, sym, ◌∙◌, str_eq_flip,
}
use data_ops_studio_v.Sql.{update_where, first}
use data_ops_studio_v.JobBackend.{Job, JobRow, Tables, is_pending, is_running}
use data_ops_studio_v.JobBackend.Queue.{
  change, has_id, owned, enqueued, claimable, before, claimed_by,
}
use data_ops_studio_v.JobBackend.Rows.{RowStep, Unique, Unique-row, Elem-filterb}
use data_ops_studio_v.JobBackend.Reaper.{stale_run, stale_job, stale_retryable}

abbrev pub new_row : Job → ℕ → JobRow
new_row job now = record { job = enqueued job; created_at = now }

-- The tables after a call keep their primary key, and each row has taken a step or is new.
abbrev pub Fresh : Tables → Job → Type 0
Fresh t job = any (has_id job.id) t.jobs ≡ false

keeps_id :
    (p : JobRow → Bool) (f : Job → Job)
    → ((j : Job) → (f j).id ≡ j.id)
    → (r : JobRow) → (if p r then change f r else r).job.id ≡ r.job.id
keeps_id p f same r = elim (Bool-cases (p r)) [ inl hit ↦ rw hit (same r.job) | inr miss ↦ rw miss ]

absent-update :
    (p : JobRow → Bool) (f : Job → Job) (id : String) (rows : List JobRow)
    → ((j : Job) → (f j).id ≡ j.id)
    → All (λ s. str_eq s.job.id id ≡ false) rows
    → All (λ s. str_eq s.job.id id ≡ false) (update_where p (change f) rows)
unfolding update_where
absent-update p f id [] same h = tt
absent-update p f id (r ∷ rows) same h =
    (rw (keeps_id p f same r) h.0, absent-update p f id rows same h.1)

-- An update that leaves the ids alone keeps the primary key.
pub Unique-update :
    (p : JobRow → Bool) (f : Job → Job) (rows : List JobRow)
    → ((j : Job) → (f j).id ≡ j.id)
    → Unique rows
    → Unique (update_where p (change f) rows)
unfolding update_where
Unique-update p f [] same u = tt
Unique-update p f (r ∷ rows) same u = (
  rw (keeps_id p f same r) (absent-update p f r.job.id rows same u.0),
  Unique-update p f rows same u.1,
)

pub retryable_running :
    (locked : String → Bool) (budget timeout now : ℕ) (r : JobRow)
    → stale_retryable locked budget timeout now r ≡ true
    → is_running r.job.status ≡ true
unfolding stale_retryable
retryable_running locked budget timeout now r e = ground arith

pub stale_job_running :
    (locked : String → Bool) (timeout now : ℕ) (r : JobRow)
    → stale_job locked timeout now r ≡ true
    → is_running r.job.status ≡ true
unfolding stale_job
stale_job_running locked timeout now r e = ground arith

pub stale_run_running :
    (locked : String → Bool) (timeout now : ℕ) (r : JobRow)
    → stale_run locked timeout now r ≡ true
    → is_running r.job.status ≡ true
unfolding stale_run
stale_run_running locked timeout now r e = ground arith

pub and_right : (a b : Bool) → a && b ≡ true → b ≡ true
and_right a b h = ground arith

pub owned_running :
    (id w : String) (r : JobRow) → owned id w r ≡ true → is_running r.job.status ≡ true
unfolding owned
owned_running id w r e = ground arith

claimable_pending :
    (locked : String → Bool) (now : ℕ) (r : JobRow)
    → claimable locked now r ≡ true
    → is_pending r.job.status ≡ true
unfolding claimable
claimable_pending locked now r e = ground arith

pub some_eq : {A : Type 0} {a b : A} → some a ≡ some b → a ≡ b
some_eq e = cc

pub Elem-first :
    {A : Type 0} (precedes : A → A → Bool) (a : A) (rows : List A)
    → first precedes rows ≡ some a
    → Elem a rows
unfolding first
Elem-first precedes a [] e = cc
Elem-first precedes a (b ∷ rows) e = elim (Option-cases (first precedes rows)) [
  | inl alone ↦ inl (sym (some_eq (rw alone at e)))
  | inr (c, found) ↦ elim (Bool-cases (precedes c b)) [
    | inl hit ↦ inr (Elem-first precedes a rows (found ∙ (rw (found, hit) at e)))
    | inr miss ↦ inl (sym (some_eq (rw (found, miss) at e)))
  ]
]

pub All-snoc :
    (P : JobRow → Type 0) (rows : List JobRow) (r : JobRow)
    → All P rows
    → P r
    → All P (rows ++ r ∷ [])
All-snoc P [] r h p = (p, tt)
All-snoc P (s ∷ rows) r h p = (h.0, All-snoc P rows r h.1 p)

-- A row at the end, under an id that no row has.
pub Unique-snoc :
    (rows : List JobRow) (r : JobRow)
    → Unique rows
    → any (has_id r.job.id) rows ≡ false
    → Unique (rows ++ r ∷ [])
Unique-snoc [] r u free = (tt, tt)
Unique-snoc (s ∷ rows) r u free = elim (Bool-cases (has_id r.job.id s)) [
  | inl same ↦ let clash = (rw same at free) in cc
  | inr other ↦ (
    All-snoc (λ x. str_eq x.job.id s.job.id ≡ false) rows r u.0
        (str_eq_flip s.job.id r.job.id other),
    Unique-snoc rows r u.1 (rw other at free),
  )
]

pub claim_step :
    (locked : String → Bool) (w : String) (now : ℕ) (t : Tables) (r s : JobRow)
    → Unique t.jobs
    → Elem s t.jobs
    → has_id r.job.id s ≡ true
    → first before (filterb (claimable locked now) t.jobs) ≡ some r
    → RowStep s.job (claimed_by w now s.job)
claim_step locked w now t r s u m e found =
    let (n, ready) = Elem-filterb (claimable locked now) r t.jobs (Elem-first before r _ found) in
    let one : s ≡ r = Unique-row s r t.jobs u m n e in
    RowStep.claimed w now (rw one (claimable_pending locked now r ready))
