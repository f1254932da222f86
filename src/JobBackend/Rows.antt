-- ===== src/JobBackend/Rows.antt =====
-- The changes that one row of `jobs` can undergo, and that an update of chosen ids reaches the
-- chosen rows only.
use data_ops_studio_v.Base.{
  ℕ, zero, suc, ◌≡◌, refl, sym, ap, ◌∙◌, String, Bool, true, false, none, some, List, [], ◌∷◌,
  str_eq, str_eq_iff, any, filterb, take, Bool-cases, inl, inr, arith, All, Elem, map, ◌⊎◌,
}
use data_ops_studio_v.Sql.{sort_in, order_by}
use data_ops_studio_v.JobBackend.{
  Job, JobRow, JobStatus, ResultRef, is_pending, is_running, is_retryable,
}
use data_ops_studio_v.JobBackend.Queue.{claimed_by, cancelled_for, retried}
use data_ops_studio_v.JobBackend.Reaper.{resumed, requeued, failed_stale, stale_ids, older}

abbrev pub succeeded : ResultRef → ℕ → Job → Job
succeeded ref now j = record j {
  status = JobStatus.success;
  result_ref = some ref;
  finished_at = some now;
  error = none;
}

abbrev pub given_back : ℕ → Job → Job
given_back at j = record j {
  status = JobStatus.pending;
  worker_id = none;
  started_at = none;
  last_heartbeat = none;
  available_at = at;
}

-- From which statuses a row may change, and how.
pub data RowStep (j : Job) : Job → Type 0 where
  kept : RowStep j j
  claimed : (w : String) (now : ℕ) → is_pending j.status ≡ true → RowStep j (claimed_by w now j)
  completed :
      (ref : ResultRef) (now : ℕ) → is_running j.status ≡ true → RowStep j (succeeded ref now j)
  published :
      (ref : ResultRef)
      → is_running j.status ≡ true
      → RowStep j (record j { result_ref = some ref })
  failed :
      (error : String) (now : ℕ)
      → is_running j.status ≡ true
      → RowStep j
          (record j { status = JobStatus.failed; error = some error; finished_at = some now })
  cancel_asked : RowStep j (record j { cancel_requested = true; cancel_reason = some "requested" })
  beaten :
      (now : ℕ) → is_running j.status ≡ true → RowStep j (record j { last_heartbeat = some now })
  stopped :
      (reason : String) (now : ℕ)
      → is_running j.status ≡ true
      → RowStep j (cancelled_for reason now j)
  yielded : (at : ℕ) → is_running j.status ≡ true → RowStep j (given_back at j)
  retries : (now : ℕ) → is_retryable j.status ≡ true → RowStep j (retried now j)
  dropped :
      (reason : String) (now : ℕ)
      → is_pending j.status ≡ true
      → RowStep j (cancelled_for reason now j)
  run_resumed : is_running j.status ≡ true → RowStep j (resumed j)
  job_requeued : is_running j.status ≡ true → RowStep j (requeued j)
  job_failed : (now : ℕ) → is_running j.status ≡ true → RowStep j (failed_stale now j)

-- The primary key.
abbrev pub Unique : List JobRow → Type 0
Unique [] = Unit
Unique (r ∷ rows) = All (λ s. str_eq s.job.id r.job.id ≡ false) rows × Unique rows

pub Elem-filterb :
    {A : Type 0} (p : A → Bool) (a : A) (rows : List A)
    → Elem a (filterb p rows)
    → Elem a rows × (p a ≡ true)
Elem-filterb p a [] h = absurd h
Elem-filterb p a (b ∷ rows) h = elim (Bool-cases (p b)) [
  | inl hit ↦ elim (keep (rw hit at h)) [
    | inl e ↦ (inl e, rw e hit)
    | inr later ↦ let (m, q) = Elem-filterb p a rows later in (inr m, q)
  ]
  | inr miss ↦ let (m, q) = Elem-filterb p a rows (rw miss at h) in (inr m, q)
]
  where
    keep : Elem a (b ∷ filterb p rows) → (a ≡ b) ⊎ Elem a (filterb p rows)
    keep x = x

Elem-swap :
    {A : Type 0} (a b c : A) (xs ys : List A)
    → (Elem a xs → Elem a (b ∷ ys))
    → Elem a (c ∷ xs)
    → Elem a (b ∷ c ∷ ys)
Elem-swap a b c xs ys f (inl e) = inr (inl e)
Elem-swap a b c xs ys f (inr x) = elim (f x) [ inl e ↦ inl e | inr y ↦ inr (inr y) ]

Elem-sort_in :
    {A : Type 0} (before : A → A → Bool) (a b : A) (rows : List A)
    → Elem a (sort_in before b rows)
    → Elem a (b ∷ rows)
unfolding sort_in
Elem-sort_in before a b [] h = h
Elem-sort_in before a b (c ∷ rows) h = elim (Bool-cases (before c b)) [
  | inl hit ↦
      Elem-swap a b c (sort_in before b rows) rows (Elem-sort_in before a b rows) (rw hit at h)
  | inr miss ↦ rw miss at h
]

Elem-order_by :
    {A : Type 0} (before : A → A → Bool) (a : A) (rows : List A)
    → Elem a (order_by before rows)
    → Elem a rows
unfolding order_by
Elem-order_by before a [] h = h
Elem-order_by before a (b ∷ rows) h = elim (Elem-sort_in before a b (order_by before rows) h) [
  | inl e ↦ inl e
  | inr x ↦ inr (Elem-order_by before a rows x)
]

Elem-take : {A : Type 0} (n : ℕ) (a : A) (rows : List A) → Elem a (take n rows) → Elem a rows
Elem-take zero a rows h = absurd h
Elem-take (suc n) a [] h = h
Elem-take (suc n) a (b ∷ rows) (inl e) = inl e
Elem-take (suc n) a (b ∷ rows) (inr x) = inr (Elem-take n a rows x)

-- Who has an id of the list.
named :
    (id : String) (rows : List JobRow)
    → any (str_eq id) (map (λ r. r.job.id) rows) ≡ true
    → (r : JobRow) × Elem r rows × (id ≡ r.job.id)
named id [] h = cc
named id (r ∷ rows) h = elim (Bool-cases (str_eq id r.job.id)) [
  | inl hit ↦ (r, inl refl, (str_eq_iff id r.job.id).0 hit)
  | inr miss ↦ let (s, m, e) = named id rows (rw miss at h) in (s, inr m, e)
]

not-Elem :
    (id : String) (r : JobRow) (rows : List JobRow)
    → All (λ s. str_eq s.job.id id ≡ false) rows
    → Elem r rows
    → str_eq r.job.id id ≡ false
not-Elem id r [] h m = absurd m
not-Elem id r (s ∷ rows) h (inl e) = rw e h.0
not-Elem id r (s ∷ rows) h (inr m) = not-Elem id r rows h.1 m

-- Two rows of a table with one id are one row.
pub Unique-row :
    (r s : JobRow) (rows : List JobRow)
    → Unique rows
    → Elem r rows
    → Elem s rows
    → str_eq r.job.id s.job.id ≡ true
    → r ≡ s
Unique-row r s [] u m n e = absurd m
Unique-row r s (x ∷ rows) u (inl p) (inl q) e = p ∙ sym q
Unique-row r s (x ∷ rows) u (inl p) (inr n) e =
    let clash = not-Elem x.job.id s rows u.0 n in
    ground (arith, str_eq_iff r.job.id s.job.id, str_eq_iff s.job.id x.job.id, ap (λ y. y.job.id) p)
Unique-row r s (x ∷ rows) u (inr m) (inl q) e =
    let clash = not-Elem x.job.id r rows u.0 m in
    ground (arith, str_eq_iff r.job.id s.job.id, str_eq_iff r.job.id x.job.id, ap (λ y. y.job.id) q)
Unique-row r s (x ∷ rows) u (inr m) (inr n) e = Unique-row r s rows u.1 m n e

-- A row whose id a `stale` query selects satisfies the query.
pub stale_ids_sound :
    (p : JobRow → Bool) (limit : ℕ) (rows : List JobRow) (r : JobRow)
    → Unique rows
    → Elem r rows
    → any (str_eq r.job.id) (stale_ids p limit rows) ≡ true
    → p r ≡ true
unfolding stale_ids
stale_ids_sound p limit rows r u m h =
    let (s, picked, same) = named r.job.id (take limit (order_by older (filterb p rows))) h in
    let (n, ps) =
      Elem-filterb p s rows (Elem-order_by older s (filterb p rows) (Elem-take limit s _ picked)) in
    let one : r ≡ s = Unique-row r s rows u m n ((str_eq_iff r.job.id s.job.id).1 same) in rw one ps
