-- ===== src/Broker/Core/Client.antt =====
-- What a client asks of one session, app/broker/core.py: `submit`, `cancel` and `close`, from the
-- session that `_require_runtime` has found. Timeouts and sizes are natural numbers, so that the
-- tests for negative values have no counterpart.
use data_ops_studio_v.Base.{
  ℕ, ◌+◌, String, Bool, true, false, not, Option, none, some, List, ◌&&◌, ◌||◌, ok, lookup, insert,
  if◌then◌else◌, ltb, leb, ◌==◌,
}
use data_ops_studio_v.Broker.State.{ConsoleStatementState, is_active}
use data_ops_studio_v.Broker.Store.{ConsoleStatement, StatementRequest, in_flight}
use data_ops_studio_v.Broker.Core.{
  World, BrokerConfig, BrokerStore, Tools, StatementSpool, LaneCommand, execute, SubmitReceipt,
  CancelReceipt, broker_error, value_error, mailbox_diverged, resultstore_error,
}
use data_ops_studio_v.Broker.Core.Op.{
  Op, ◌>>=◌, ◌>>◌, return, fail_with, fail_if, this, change, in_store, at_key,
}
use data_ops_studio_v.Broker.Core.Changes.{
  put_nowait, record_event, put_statement, set_statement_state, begin_cancel_locked,
  queue_close_locked, with_statement, same_id, is_terminal_statement, is_accepted,
}

-- The arguments of `submit`, the id and the time that the call draws among them.
pub record Submission : Type 0 where
  pub epoch : ℕ
  pub sql : String
  pub client_request_id : String
  pub timeout_seconds : ℕ
  pub page_size : ℕ
  pub max_result_rows : ℕ
  pub statement_id : String
  pub now : ℕ

abbrev pub note_request : {S : Type 0} → String → ConsoleStatement → World S → World S
note_request request_id statement w = record w {
  runtime = record (with_statement statement w.runtime) {
    requests = insert request_id statement.id w.runtime.requests;
  };
  statement_sessions = insert statement.id w.runtime.session.id w.statement_sessions;
}

unfoldable pub note_answer : {S : Type 0} → String → ConsoleStatement → Op S (Unit {0})
note_answer request_id statement w = (note_request request_id statement w, ok tt)

module _ {S : Type 0} (api : BrokerStore S) (config : BrokerConfig) (tools : Tools) where
  unfoldable pub require_epoch : ℕ → Op S (Unit {0})
  require_epoch epoch = this >>= λ r.
      fail_if (not (epoch == r.session.epoch))
        (broker_error "stale_session_epoch" (some r.session.epoch))

  unfoldable pub statement_request : Submission → StatementRequest
  statement_request q = record {
    statement_id = q.statement_id;
    client_request_id = q.client_request_id;
    sql = q.sql;
    sql_hash = tools.digest q.sql;
    sql_len = tools.text_length q.sql;
    timeout_seconds = q.timeout_seconds;
    now = q.now;
    is_write = false;
  }

  abbrev pub id_misfits : Submission → Bool
  id_misfits q =
      tools.text_length q.client_request_id == 0 || ltb 64 (tools.text_length q.client_request_id)

  abbrev pub no_rows_asked : Submission → Bool
  no_rows_asked q = q.page_size == 0 || q.max_result_rows == 0

  unfoldable pub check_arguments : Submission → Op S (Unit {0})
  check_arguments q = do fail_if (id_misfits q) value_error; fail_if (no_rows_asked q) value_error

  unfoldable pub check_open : Op S (Unit {0})
  check_open = do
    r ← this
    fail_if (not r.accepting || not (is_active r.session.state))
        (broker_error "session_not_active" (some r.session.epoch))
    fail_if (leb config.mailbox_size r.pending_count)
        (broker_error "session_mailbox_full" (some r.session.epoch))

  -- No result set: the statement has failed, and the exception goes on.
  unfoldable pub register_failed : ConsoleStatement → (now : ℕ) → Op S SubmitReceipt
  register_failed statement now = do
    updated ←
        set_statement_state api config statement ConsoleStatementState.failed now none
          (some "resultstore_error") (some "statement result set could not be created")
    record_event api config updated "terminal" now
    fail_with resultstore_error

  -- `mailbox.put_nowait` and `pending_count += 1`.
  unfoldable pub queued_execute : Option (List LaneCommand) → Op S (Unit {0})
  queued_execute none = fail_with mailbox_diverged
  queued_execute (some mailbox) =
      change (λ r. record r { mailbox = mailbox; pending_count = r.pending_count + 1 })

  unfoldable pub queue_execute : String → Op S (Unit {0})
  queue_execute id =
      this >>= λ r. queued_execute (put_nowait config.mailbox_size (execute id) r.mailbox)

  unfoldable pub registered : Submission → ConsoleStatement → String → Op S SubmitReceipt
  registered q created result_set_id = do
    let spool : StatementSpool = record {
      result_set_id = result_set_id;
      page_size = q.page_size;
      max_result_rows = q.max_result_rows;
    }
    change (λ r. record r { spools = insert created.id spool r.spools })
    let statement = record created { result_set_id = some result_set_id }
    put_statement api config statement
    queue_execute statement.id
    record_event api config statement "submitted" q.now
    return (record { statement = statement; deduplicated = false })

  -- A statement that the store has created, or has had before.
  unfoldable pub created : Submission → ConsoleStatement × Bool → Op S SubmitReceipt
  created q (statement, true) = return (record { statement = statement; deduplicated = true })
  created q (statement, false) = elim (tools.register statement q.page_size q.max_result_rows) [
    | none ↦ register_failed statement q.now
    | some id ↦ registered q statement id
  ]

  unfoldable pub create_in_store : Submission → Op S (ConsoleStatement × Bool)
  create_in_store q =
      this >>= λ r. in_store (λ s. api.create_statement s r.session (statement_request q))

  unfoldable pub submit_new : Submission → Op S SubmitReceipt
  submit_new q = do
    check_open
    answer ← create_in_store q
    note_answer q.client_request_id answer.0
    created q answer

  unfoldable pub replay : String → Op S SubmitReceipt
  replay id = do
    r ← this
    statement ← at_key (lookup id r.statements)
    return (record { statement = statement; deduplicated = true })

  -- The branch on `replay_id`.
  unfoldable pub submit_or_replay : Submission → Option String → Op S SubmitReceipt
  submit_or_replay q none = submit_new q
  submit_or_replay q (some id) = replay id

  unfoldable pub submit : Submission → Op S SubmitReceipt
  submit q = do
    check_arguments q
    require_epoch q.epoch
    r ← this
    submit_or_replay q (lookup q.client_request_id r.requests)

  unfoldable pub cancel_accepted : ConsoleStatement → (now : ℕ) → Op S CancelReceipt
  cancel_accepted statement now = do
    updated ←
        set_statement_state api config statement ConsoleStatementState.cancelled now (some true)
          none none
    record_event api config updated "cancel_requested" now
    return (record { accepted_ = true; statement_state = updated.state })

  unfoldable pub cancel_current : ConsoleStatement → (now : ℕ) → Op S CancelReceipt
  cancel_current statement now = do
    begin_cancel_locked api config statement "user" now
    r ← this
    later ← at_key (lookup statement.id r.statements)
    return (record { accepted_ = true; statement_state = later.state })

  unfoldable pub cancel : (statement_id : String) → (epoch now : ℕ) → Op S CancelReceipt
  cancel statement_id epoch now = do
    require_epoch epoch
    r ← this
    statement ← at_key (lookup statement_id r.statements)
    if is_accepted statement
        then cancel_accepted statement now
        else if same_id r.current_statement_id statement_id && in_flight statement.state
        then cancel_current statement now
        else if is_terminal_statement statement.state
        then return (record { accepted_ = false; statement_state = statement.state })
        else fail_with (broker_error "statement_not_cancellable" (some r.session.epoch))

  unfoldable pub close : (epoch : ℕ) → (reason : String) → (now : ℕ) → Op S (Unit {0})
  close epoch reason now = do require_epoch epoch; queue_close_locked api config reason true now
