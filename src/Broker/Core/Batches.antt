-- ===== src/Broker/Core/Batches.antt =====
-- The batches of `_drain_to_spool` of app/broker/core.py: what one row and one flush make of them.
use data_ops_studio_v.Base.{
  ℕ, ◌+◌, ◌≤◌, ◌<◌, ◌≡◌, ◌≢◌, refl, sym, ap, ◌∙◌, true, false, some, List, [], ◌∷◌, ◌++◌, leb,
  length, length-append, All, ◌⊎◌, arith, Bool-cases, inl, inr,
}
use mathlib.Core.List.{append-nil, append_assoc}
use data_ops_studio_v.Broker.Core.{StatementSpool}
use data_ops_studio_v.Broker.Core.Drain.{
  Drained, Drain, Surroundings, FlushOutcome, flushed, append_failed, publish_failed, flush_with,
  flush_batch, reset_batch, take_row, unless_raised,
}

module _ {R : Type 0} where
  -- The rows that have reached the result set.
  unfoldable pub joined : List (List R) → List R
  joined [] = []
  joined (b ∷ bs) = b ++ joined bs

  pub joined-snoc : (bs : List (List R)) (b : List R) → joined (bs ++ b ∷ []) ≡ joined bs ++ b
  unfolding joined
  joined-snoc [] b = append-nil b
  joined-snoc (c ∷ bs) b = ap (λ x. c ++ x) (joined-snoc bs b) ∙ sym (append_assoc c (joined bs) b)

module _ {R : Type 0} (around : Surroundings) (spool : StatementSpool) where
  -- The rows taken so far, in the batches and in the one that is being filled.
  abbrev pub rows_of : Drained R → List R
  rows_of d = joined d.stored ++ d.batch

  -- Full batches but for the last.
  abbrev pub Sized : ℕ → Drained R → Type 0
  Sized size d = All (λ b. (1 ≤ length b) × (length b ≤ size)) d.stored × (length d.batch < size)

  pub append-length-All :
      (size : ℕ) (bs : List (List R)) (b : List R)
      → All (λ b. (1 ≤ length b) × (length b ≤ size)) bs
      → (1 ≤ length b) × (length b ≤ size)
      → All (λ b. (1 ≤ length b) × (length b ≤ size)) (bs ++ b ∷ [])
  append-length-All size [] b h n = (n, tt)
  append-length-All size (c ∷ bs) b h n = (h.0, append-length-All size bs b h.1 n)

  -- A flush has raised, and with it the run.
  abbrev pub Failed : Drain R → Type 0
  Failed run = (n : ℕ) × (d : Drained R) × (around.flush_outcome n ≢ flushed) × (run ≡ (d, true))

  abbrev pub flushed_all : Drained R → Drained R
  flushed_all d = record d { stored = d.stored ++ d.batch ∷ []; flushes = d.flushes + 1 }

  reset_batch_kept :
      (d : Drained R) → reset_batch around (d, false) ≡ (record d { batch = [] }, false)
  unfolding reset_batch
  reset_batch_kept d = refl

  reset_batch_raised : (d : Drained R) → reset_batch around (d, true) ≡ (d, true)
  unfolding reset_batch
  reset_batch_raised d = refl

  pub unless_raised_not :
      (k : Drained R → Drain R) (run : Drain R) (d : Drained R)
      → run ≡ (d, false)
      → unless_raised around k run ≡ k d
  unfolding unless_raised
  unless_raised_not k run d e = ap (unless_raised around k) e

  pub unless_raised_stops :
      (k : Drained R → Drain R) (run : Drain R) (d : Drained R)
      → run ≡ (d, true)
      → unless_raised around k run ≡ (d, true)
  unfolding unless_raised
  unless_raised_stops k run d e = ap (unless_raised around k) e

  pub flush_batch_lem :
      (d : Drained R)
      → (flush_batch around (some spool) d ≡ (flushed_all d, false))
        ⊎ Failed (flush_batch around (some spool) d)
  unfolding flush_batch flush_with
  flush_batch_lem d = by_outcome (around.flush_outcome d.flushes) refl
    where
      by_outcome :
          (o : FlushOutcome)
          → around.flush_outcome d.flushes ≡ o
          → (flush_with around (around.flush_outcome d.flushes) d ≡ (flushed_all d, false))
            ⊎ Failed (flush_with around (around.flush_outcome d.flushes) d)
      by_outcome flushed e = inl (rw e refl)
      by_outcome append_failed e =
          inr (d.flushes, record d { flushes = d.flushes + 1 }, λ h. cc, rw e refl)
      by_outcome publish_failed e = inr (d.flushes, flushed_all d, λ h. cc, rw e refl)

  -- The state after a row was taken.
  pub record Took (size : ℕ) (row : R) (d result : Drained R) : Type 0 where
    pub sized : Sized size result
    pub added : rows_of result ≡ rows_of d ++ row ∷ []
    pub counted : result.rows_returned ≡ d.rows_returned + 1
    pub limit_same : result.output_limit_applied ≡ d.output_limit_applied
    pub mark_same : result.truncated ≡ d.truncated

  abbrev with_row : R → Drained R → Drained R
  with_row row d = record d {
    rows_read = d.rows_read + 1;
    rows_returned = d.rows_returned + 1;
    batch = d.batch ++ row ∷ [];
  }

  pub take_row_lem :
      (size : ℕ) (row : R) (d : Drained R)
      → 1 ≤ size
      → Sized size d
      → ((result : Drained R) × (take_row around (some spool) size row d ≡ (result, false))
          × Took size row d result)
        ⊎ Failed (take_row around (some spool) size row d)
  unfolding take_row
  take_row_lem size row d one h = elim (Bool-cases (leb size (length (d.batch ++ row ∷ [])))) [
    | inl full ↦ elim (flush_batch_lem (with_row row d)) [
      | inl good ↦ inl (
        record (flushed_all (with_row row d)) { batch = [] },
        rw full (ap (reset_batch around) good ∙ reset_batch_kept _),
        record {
          sized = (
            append-length-All size d.stored (d.batch ++ row ∷ []) h.0 (
                let n = length-append d.batch (row ∷ []) in
                let below = h.1 in (omega arith, omega arith)),
            omega arith,
          );
          added =
              append-nil (joined (d.stored ++ (d.batch ++ row ∷ []) ∷ []))
              ∙ joined-snoc d.stored (d.batch ++ row ∷ [])
              ∙ sym (append_assoc (joined d.stored) d.batch (row ∷ []));
          counted = refl;
          limit_same = refl;
          mark_same = refl;
        },
      )
      | inr (n, d', bad, raised) ↦
          inr (n, d', bad, rw full (ap (reset_batch around) raised ∙ reset_batch_raised _))
    ]
    | inr more ↦ inl (
      with_row row d,
      rw more refl,
      record {
        sized = (h.0, ground arith);
        added = sym (append_assoc (joined d.stored) d.batch (row ∷ []));
        counted = refl;
        limit_same = refl;
        mark_same = refl;
      },
    )
  ]
