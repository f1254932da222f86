-- ===== src/Broker/Core/Lane.antt =====
-- The lane thread of a session, app/broker/core.py: `_lane_loop`, `_execute_statement` and
-- `_close_on_lane` in the parts that hold the lock. What the connection answers is an argument.
use data_ops_studio_v.Base.{
  ℕ, ◌+◌, ◌-◌, String, Bool, true, false, not, Option, none, some, List, [], ◌∷◌, ◌&&◌, ◌||◌,
  lookup, insert, if◌then◌else◌, ltb,
}
use data_ops_studio_v.Broker.State.{
  ConsoleSessionState, ConsoleStatementState, session_eq, statement_eq, is_active,
}
use data_ops_studio_v.Broker.Store.{ConsoleStatement}
use data_ops_studio_v.Broker.Core.{
  SessionRuntime, BrokerConfig, BrokerStore, LaneCommand, execute, Request,
}
use data_ops_studio_v.Broker.Core.Op.{
  Op, ◌>>=◌, ◌>>◌, return, this, change, send, session_to, statement_to, at_key,
}
use data_ops_studio_v.Broker.Core.Changes.{
  save_session, record_event, put_statement, save_statement, set_statement_state, move_session,
  lose_session_locked, settle_cancel_fence_locked, back_to_idle, idle_deadline_at, with_session,
  same_id, is_terminal_statement, is_accepted,
}

unfoldable pub got_command : SessionRuntime → List LaneCommand → SessionRuntime
got_command r [] = r
got_command r (c ∷ rest) = record r { mailbox = rest; taken = some c }

abbrev pub is_execute : Option LaneCommand → Bool
is_execute (some (execute _)) = true
is_execute _ = false

-- The loop over `condition.wait` goes on.
abbrev pub has_to_wait : SessionRuntime → Bool
has_to_wait r = r.cancel_in_flight && is_active r.session.state

abbrev pub runs_on : ConsoleSessionState → Bool
runs_on s = session_eq s ConsoleSessionState.idle || session_eq s ConsoleSessionState.executing

-- How the driver ended: the cases of the `except` clauses. `cancelled` says whether the server
-- confirmed it, and `unknown` whether a `ping` still answers.
pub data Ending : Type 0 where
  succeeds connection_aborted times_out fails breaks : Ending
  is_cancelled : (server_confirmed : Bool) → Ending
  is_unknown : (answers_ping : Bool) → Ending

abbrev pub lost_outcome : Bool → ConsoleStatementState
lost_outcome is_write =
    if is_write then ConsoleStatementState.outcome_unknown else ConsoleStatementState.failed

unfoldable pub terminal_state :
    Ending → (is_write : Bool) → (cancel_reason : Option String) → ConsoleStatementState
terminal_state succeeds is_write reason = ConsoleStatementState.succeeded
terminal_state connection_aborted is_write reason = lost_outcome is_write
terminal_state times_out is_write reason = ConsoleStatementState.timeout
terminal_state fails is_write reason = ConsoleStatementState.failed
terminal_state breaks is_write reason = ConsoleStatementState.failed
terminal_state (is_cancelled confirmed) is_write reason =
    if same_id reason "timeout"
    then ConsoleStatementState.timeout
    else ConsoleStatementState.cancelled
terminal_state (is_unknown answers) is_write reason =
    if answers then ConsoleStatementState.failed else lost_outcome is_write

unfoldable pub connection_lost : Ending → Bool
connection_lost connection_aborted = true
connection_lost (is_unknown answers) = not answers
connection_lost _ = false

abbrev pub confirms : Ending → Bool
confirms (is_cancelled confirmed) = confirmed
confirms _ = false

abbrev pub free_lane : String → SessionRuntime → SessionRuntime
free_lane id r =
    if same_id r.current_statement_id id
    then record r { current_statement_id = none; statement_deadline = none }
    else r

abbrev pub is_busy : ConsoleSessionState → Bool
is_busy s =
    session_eq s ConsoleSessionState.executing || session_eq s ConsoleSessionState.cancelling

abbrev pub is_over : ConsoleSessionState → Bool
is_over s =
    session_eq s ConsoleSessionState.closed
    || session_eq s ConsoleSessionState.session_lost
    || session_eq s ConsoleSessionState.connect_failed

module _ {S : Type 0} (api : BrokerStore S) (config : BrokerConfig) where
  -- The connection could not be opened; the code is that of the classified error, or `connect_failed`.
  unfoldable pub connect_failed_on_lane : (error_code : String) → (now : ℕ) → Op S (Unit {0})
  connect_failed_on_lane error_code now = do
    change (λ r. record r { accepting = false })
    move_session api config ConsoleSessionState.connect_failed (λ s. record s {
      error_code = some error_code;
      closed_at = some now;
      close_reason = some "connect_failed";
      last_activity_at = now;
    })

  unfoldable pub connected_on_lane : (marker : Option String) → (now : ℕ) → Op S (Unit {0})
  connected_on_lane marker now = do
    r ← this
    state ← session_to r.session.state ConsoleSessionState.idle
    change (
        with_session
          (λ s. record s { state = state; db_session_marker = marker; last_activity_at = now }))
    change (λ r. record r { idle_deadline = idle_deadline_at api config now })
    save_session api config

  unfoldable pub get_if_free : Option LaneCommand → Op S (Unit {0})
  get_if_free none = change (λ r. got_command r r.mailbox)
  get_if_free (some c) = return tt

  -- `mailbox.get()`, which waits for a command, by a lane that has none.
  unfoldable pub lane_get : Op S (Unit {0})
  lane_get = this >>= λ r. get_if_free r.taken

  -- `pending_count -= 1`, once for the command that was got.
  unfoldable pub lane_count : Op S (Unit {0})
  lane_count = this >>= λ r.
      if is_execute r.taken
      then change (λ r. record r { pending_count = r.pending_count - 1; taken = none })
      else return tt

  unfoldable pub start_statement : ConsoleStatement → (now : ℕ) → Op S (Unit {0})
  start_statement statement now = do
    send Request.clear_soft_cancel
    change (λ r. record r {
      current_statement_id = some statement.id;
      statement_deadline =
          if ltb 0 statement.timeout_seconds then some (now + statement.timeout_seconds) else none;
    })
    r ← this
    state ← session_to r.session.state ConsoleSessionState.executing
    change (with_session (λ s. record s { state = state; last_activity_at = now }))
    statement_state ← statement_to statement.state ConsoleStatementState.executing
    let started = record statement { state = statement_state; started_at = some now }
    change (λ r. record r { statements = insert started.id started r.statements })
    save_session api config
    save_statement api config started
    record_event api config started "started" now

  -- The first part of `_execute_statement`, past the waiting.
  unfoldable pub execute_statement : (statement_id : String) → (now : ℕ) → Op S (Unit {0})
  execute_statement id now = do
    r ← this
    if has_to_wait r then return tt else (do
      statement ← at_key (lookup id r.statements)
      if not (is_accepted statement) || not r.accepting && not (runs_on r.session.state)
          then return tt
          else start_statement statement now)

  -- The part after `connection.execute`.
  unfoldable pub stream_statement : (statement_id : String) → Op S (Unit {0})
  stream_statement id = do
    r ← this
    statement ← at_key (lookup id r.statements)
    if statement_eq statement.state ConsoleStatementState.executing
        then (do
          state ← statement_to statement.state ConsoleStatementState.streaming
          put_statement api config (record statement { state = state }))
        else return tt

  -- The locked part of the clause for a cancelled statement.
  unfoldable pub note_ending : Ending → Op S (Unit {0})
  note_ending e =
      if confirms e then change (λ r. record r { cancel_confirmed = true }) else return tt

  -- The last part of `_execute_statement`; the reason is what the clause for a cancelled statement has
  -- read of `cancel_reason`.
  unfoldable pub finish_statement :
      (statement_id : String)
      → Ending
      → (cancel_reason : Option String) → (error_code error_summary : Option String) → (now : ℕ)
      → Op S (Unit {0})
  finish_statement id e reason code summary now = do
    r ← this
    current ← at_key (lookup id r.statements)
    if is_terminal_statement current.state then return tt else (do
      updated ←
          set_statement_state api config current (terminal_state e current.is_write reason) now none
            code summary
      record_event api config updated "terminal" now)
    if connection_lost e then lose_session_locked api config "connection_dead" now else return tt
    change (free_lane id)
    settle_cancel_fence_locked api config id now
    (this >>= λ r.
        if not r.cancel_in_flight && is_busy r.session.state
        then back_to_idle api config now
        else return tt)

  -- `_close_if_pending_and_drained`: the reason with which the lane closes, if it does.
  unfoldable pub take_pending_close : Op S (Option String)
  take_pending_close = this >>= λ r. elim r.mailbox [
    | _ ∷ _ ↦ return none
    | [] ↦ change (λ r. record r { close_reason_pending = none }) >> return r.close_reason_pending
  ]

  -- The two parts of `_close_on_lane`, before and after the connection is closed.
  unfoldable pub closing_on_lane : (now : ℕ) → Op S (Unit {0})
  closing_on_lane now = this >>= λ r.
      if has_to_wait r
        || is_over r.session.state
        || session_eq r.session.state ConsoleSessionState.closing
      then return tt
      else move_session api config ConsoleSessionState.closing
          (λ s. record s { last_activity_at = now })

  unfoldable pub closed_on_lane : (reason : String) → (now : ℕ) → Op S (Unit {0})
  closed_on_lane reason now = do
    r ← this
    state ← session_to r.session.state ConsoleSessionState.closed
    change (
        with_session (λ s. record s {
          state = state;
          closed_at = some now;
          close_reason = some reason;
          last_activity_at = now;
        }))
    change (λ r. record r { idle_deadline = none })
    save_session api config
