-- ===== src/Broker/Core/Drain.antt =====
-- `_drain_to_spool` of app/broker/core.py: the rows of a statement go to its result set in batches,
-- up to a limit. The rows that the stream yields before it ends or raises are a list; what the result
-- store does at each call is an argument; the times that the metrics hold are left out.
use data_ops_studio_v.Base.{
  ℕ, ◌+◌, Bool, true, false, Option, none, some, List, [], ◌∷◌, ◌++◌, ◌||◌, not, if◌then◌else◌, leb,
  min, max, length,
}
use data_ops_studio_v.Broker.Core.{BrokerConfig, StatementSpool}

-- `_fetch_size`: one row more shows that there are more.
unfoldable pub fetch_size : BrokerConfig → Option StatementSpool → ℕ
fetch_size config none = config.spool_batch_size
fetch_size config (some spool) = max 1 (min spool.page_size (spool.max_result_rows + 1))

unfoldable pub batch_size : BrokerConfig → Option StatementSpool → ℕ
batch_size config none = config.spool_batch_size
batch_size config (some spool) = max 1 (min config.spool_batch_size spool.page_size)

unfoldable pub row_limit : Option StatementSpool → Option ℕ
row_limit none = none
row_limit (some spool) = some spool.max_result_rows

-- `limit is not None and metrics.rows_returned >= limit`.
unfoldable pub at_limit : Option ℕ → ℕ → Bool
at_limit none rows_returned = false
at_limit (some limit) rows_returned = leb limit rows_returned

-- What a call of `_flush_batch` does that reaches the result store: `append` or, after it,
-- `publish_streaming` may raise.
pub data FlushOutcome : Type 0 where
  flushed append_failed publish_failed : FlushOutcome

-- The result store and the stream: the outcome of each flush in their order, whether `mark_truncated`
-- raises, and whether the stream raises after its last row.
pub record Surroundings : Type 0 where
  pub flush_outcome : ℕ → FlushOutcome
  pub mark_raises : Bool
  pub stream_raises : Bool

-- The counters of the metrics, the batch that is being filled, the batches that the result set holds,
-- the flushes made, and whether the result set is marked as truncated.
pub record Drained (R : Type 0) : Type 0 where
  pub rows_read : ℕ
  pub rows_returned : ℕ
  pub output_limit_applied : Bool
  pub batch : List R
  pub stored : List (List R)
  pub flushes : ℕ
  pub truncated : Bool

abbrev pub nothing_drained : {R : Type 0} → Drained R
nothing_drained = record {
  rows_read = 0;
  rows_returned = 0;
  output_limit_applied = false;
  batch = [];
  stored = [];
  flushes = 0;
  truncated = false;
}

-- A state, and whether an exception is on its way.
abbrev pub Drain : Type 0 → Type 0
Drain R = Drained R × Bool

module _ {R : Type 0} (around : Surroundings) where
  unfoldable pub flush_with : FlushOutcome → Drained R → Drain R
  flush_with flushed d =
      (record d { stored = d.stored ++ d.batch ∷ []; flushes = d.flushes + 1 }, false)
  flush_with append_failed d = (record d { flushes = d.flushes + 1 }, true)
  flush_with publish_failed d =
      (record d { stored = d.stored ++ d.batch ∷ []; flushes = d.flushes + 1 }, true)

  unfoldable pub flush_batch : Option StatementSpool → Drained R → Drain R
  flush_batch none d = (d, false)
  flush_batch (some spool) d = flush_with (around.flush_outcome d.flushes) d

  -- `batch = []` after a flush in the loop, unless the flush raised.
  unfoldable pub reset_batch : Drain R → Drain R
  reset_batch (d, false) = (record d { batch = [] }, false)
  reset_batch (d, true) = (d, true)

  -- A row within the limit.
  unfoldable pub take_row : Option StatementSpool → (size : ℕ) → R → Drained R → Drain R
  take_row spool size row d =
      let kept = record d {
        rows_read = d.rows_read + 1;
        rows_returned = d.rows_returned + 1;
        batch = d.batch ++ row ∷ [];
      } in
      if leb size (length kept.batch) then reset_batch (flush_batch spool kept) else (kept, false)

  -- What follows, unless an exception is on its way.
  unfoldable pub unless_raised : (Drained R → Drain R) → Drain R → Drain R
  unless_raised k (d, false) = k d
  unless_raised k (d, true) = (d, true)

  -- The loop over the stream, with its `break`.
  unfoldable pub drain_rows : Option StatementSpool → (size : ℕ) → List R → Drained R → Drain R
  drain_rows spool size [] d = (d, around.stream_raises)
  drain_rows spool size (row ∷ rows) d =
      let rest = unless_raised (drain_rows spool size rows) (take_row spool size row d) in
      if at_limit (row_limit spool) d.rows_returned
      then (record d { rows_read = d.rows_read + 1; output_limit_applied = true }, false)
      else rest

  unfoldable pub last_batch_of : Option StatementSpool → List R → Drained R → Drain R
  last_batch_of spool [] d = (d, false)
  last_batch_of spool (row ∷ rows) d = flush_batch spool d

  unfoldable pub mark_truncated : Option StatementSpool → Drained R → Drain R
  mark_truncated none d = (d, false)
  mark_truncated (some spool) d =
      if d.output_limit_applied
      then (record d { truncated = not around.mark_raises }, around.mark_raises)
      else (d, false)

  -- The `finally` clause, whose own exceptions come before the one that was on its way.
  unfoldable pub finally_flush : Option StatementSpool → Drain R → Drain R
  finally_flush spool (d, raised) =
      let (d', again) = unless_raised (mark_truncated spool) (last_batch_of spool d.batch d) in
      (d', raised || again)

  unfoldable pub drain_to_spool : BrokerConfig → Option StatementSpool → List R → Drain R
  drain_to_spool config spool rows =
      finally_flush spool (drain_rows spool (batch_size config spool) rows nothing_drained)
