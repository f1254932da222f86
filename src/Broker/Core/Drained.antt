-- ===== src/Broker/Core/Drained.antt =====
-- Which rows `_drain_to_spool` of app/broker/core.py gives to the result set.
use data_ops_studio_v.Base.{
  ℕ, ◌≤◌, ◌≡◌, Bool, false, List, ◌++◌, ltb, length, take, All, if◌then◌else◌, not, ◌&&◌,
}
use data_ops_studio_v.Broker.Core.{StatementSpool}
use data_ops_studio_v.Broker.Core.Drain.{Drained, Surroundings}
use data_ops_studio_v.Broker.Core.Batches.{joined, rows_of, Sized}

module _ {R : Type 0} (around : Surroundings) (spool : StatementSpool) where
  -- The state after the loop, where `n` more rows are allowed.
  record Filled (size n : ℕ) (rows : List R) (d result : Drained R) : Type 0 where
    taken : rows_of around spool result ≡ rows_of around spool d ++ take n rows
    cut : result.output_limit_applied ≡ ltb n (length rows)
    unmarked : result.truncated ≡ false
    sized : Sized around spool size result

  -- Whether the stream is read to the point where it raises.
  abbrev raises_after : ℕ → List R → Bool
  raises_after n rows = if ltb n (length rows) then false else around.stream_raises

  -- The state after the last batch.
  record Closed (size : ℕ) (d result : Drained R) : Type 0 where
    all_sized : All (λ b. (1 ≤ length b) × (length b ≤ size)) result.stored
    whole : joined result.stored ≡ rows_of around spool d
    limit_kept : result.output_limit_applied ≡ d.output_limit_applied
    mark_kept : result.truncated ≡ d.truncated

  -- The state after `mark_truncated` has been called where it is due.
  record Marked (over : Bool) (d result : Drained R) : Type 0 where
    stored_same : result.stored ≡ d.stored
    over_same : result.output_limit_applied ≡ over
    marked : result.truncated ≡ (over && not around.mark_raises)

  -- What the result set holds when no flush has raised.
  record Complete (size : ℕ) (rows : List R) (result : Drained R) : Type 0 where
    pub first_rows : joined result.stored ≡ take spool.max_result_rows rows
    pub batches_sized : All (λ b. (1 ≤ length b) × (length b ≤ size)) result.stored
    pub limit_told : result.output_limit_applied ≡ ltb spool.max_result_rows (length rows)
    pub marked_if_cut :
        result.truncated ≡ (ltb spool.max_result_rows (length rows) && not around.mark_raises)
