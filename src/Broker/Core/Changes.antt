-- ===== src/Broker/Core/Changes.antt =====
-- The helpers of `SessionBroker` of app/broker/core.py that change a session under the lock. The
-- clock stands still within a step.
use data_ops_studio_v.Base.{
  ℕ, ◌+◌, String, Bool, true, false, not, Option, none, some, List, [], ◌∷◌, ◌++◌, ◌&&◌, ◌||◌,
  lookup, insert, values, length, if◌then◌else◌, any, filterb, str_eq, ltb,
}
use data_ops_studio_v.Broker.State.{
  ConsoleSessionState, ConsoleStatementState, session_eq, statement_eq,
}
use data_ops_studio_v.Broker.Store.{ConsoleSession, ConsoleStatement, in_flight}
use data_ops_studio_v.Broker.Core.{
  SessionRuntime, BrokerConfig, BrokerStore, LaneCommand, Request, control_lane_missing, close_lane,
}
use data_ops_studio_v.Broker.Core.Op.{
  Op, ◌>>=◌, ◌>>◌, return, fail_with, this, change, send, in_store, session_to, statement_to,
  at_key,
}

-- `_TERMINAL_STATEMENT_STATES`.
unfoldable pub is_terminal_statement : ConsoleStatementState → Bool
is_terminal_statement s = any (statement_eq s) (
    ConsoleStatementState.succeeded ∷ ConsoleStatementState.failed ∷ ConsoleStatementState.cancelled
    ∷ ConsoleStatementState.timeout ∷ ConsoleStatementState.outcome_unknown
    ∷ ConsoleStatementState.skipped ∷ [])

abbrev pub same_id : Option String → String → Bool
same_id none id = false
same_id (some x) id = str_eq x id

-- `runtime.session = replace(runtime.session, …)` and `runtime.statements[statement.id] = …`.
abbrev pub with_session : (ConsoleSession → ConsoleSession) → SessionRuntime → SessionRuntime
with_session f r = record r { session = f r.session }

abbrev pub with_statement : ConsoleStatement → SessionRuntime → SessionRuntime
with_statement s r = record r { statements = insert s.id s r.statements }

unfoldable pub put_nowait : ℕ → LaneCommand → List LaneCommand → Option (List LaneCommand)
put_nowait size c mailbox = if ltb (length mailbox) size then some (mailbox ++ c ∷ []) else none

abbrev pub fence_down : SessionRuntime → SessionRuntime
fence_down r = record r {
  cancel_in_flight = false;
  cancel_statement_id = none;
  cancel_reason = none;
  cancel_grace_deadline = none;
  cancel_destroy_sent = false;
}

abbrev pub is_accepted : ConsoleStatement → Bool
is_accepted s = statement_eq s.state ConsoleStatementState.accepted

-- `mailbox.put_nowait` of a close command, or the note for later where it is full.
unfoldable pub queued_close : String → SessionRuntime → Option (List LaneCommand) → SessionRuntime
queued_close reason r (some mailbox) = record r { mailbox = mailbox }
queued_close reason r none = record r { close_reason_pending = some reason }

unfoldable pub queue_close : ℕ → String → SessionRuntime → SessionRuntime
queue_close size reason r = queued_close reason r (put_nowait size (close_lane reason) r.mailbox)

module _ {S : Type 0} (api : BrokerStore S) (config : BrokerConfig) where
  unfoldable pub idle_deadline_at : ℕ → Option ℕ
  idle_deadline_at last_activity_at = some (last_activity_at + config.idle_timeout_seconds)

  unfoldable pub save_session : Op S (Unit {0})
  save_session = this >>= λ r. in_store (λ s. api.update_session s r.session)

  unfoldable pub record_event : ConsoleStatement → String → ℕ → Op S (Unit {0})
  record_event statement event_type now =
      in_store (λ s. api.add_event s statement.id event_type now)

  -- The state that `transition_session` allows, the other changes of the session, and the store.
  unfoldable pub move_session :
      ConsoleSessionState → (ConsoleSession → ConsoleSession) → Op S (Unit {0})
  move_session target f = do
    r ← this
    state ← session_to r.session.state target
    change (with_session (λ s. record (f s) { state = state }))
    save_session

  unfoldable pub save_statement : ConsoleStatement → Op S (Unit {0})
  save_statement statement = in_store (λ s. api.update_statement s statement)

  unfoldable pub put_statement : ConsoleStatement → Op S (Unit {0})
  put_statement statement = do change (with_statement statement); save_statement statement

  unfoldable pub set_statement_state :
      ConsoleStatement
      → ConsoleStatementState
      → (now : ℕ) → (cancel_requested : Option Bool) → (error_code error_summary : Option String)
      → Op S ConsoleStatement
  set_statement_state statement target now cancel code summary = do
    state ← statement_to statement.state target
    let updated = record statement {
      state = state;
      cancel_requested = elim cancel [ none ↦ statement.cancel_requested | some b ↦ b ];
      error_code = code;
      error_summary = summary;
      finished_at = if is_terminal_statement target then some now else statement.finished_at;
    }
    put_statement updated
    return updated

  unfoldable pub lose_session_locked : (reason : String) → (now : ℕ) → Op S (Unit {0})
  lose_session_locked reason now = this >>= λ r.
      if session_eq r.session.state ConsoleSessionState.session_lost then return tt else (do
        change (λ r. record r { accepting = false; cancel_in_flight = false })
        state ← session_to r.session.state ConsoleSessionState.session_lost
        change (λ r.
            record (with_session
              (λ s. record s {
                state = state;
                closed_at = some now;
                close_reason = some reason;
                error_code = some reason;
                last_activity_at = now;
              })
              r) { idle_deadline = none })
        save_session)

  abbrev pub fence_up : ConsoleStatement → String → ℕ → SessionRuntime → SessionRuntime
  fence_up statement reason now r = record r {
    cancel_in_flight = true;
    cancel_statement_id = some statement.id;
    cancel_reason = some reason;
    cancel_control_done = false;
    cancel_statement_done = false;
    cancel_confirmed = false;
    cancel_destroy_sent = false;
    cancel_grace_deadline = some (now + config.cancel_grace_seconds);
  }

  -- `self._controls.get(…)` and `submit`.
  unfoldable pub dispatch : Request → Op S (Unit {0}) → Op S (Unit {0})
  dispatch q missing w =
      (if any (str_eq w.runtime.session.datasource_id) w.controls then send q else missing) w

  unfoldable pub begin_cancel_locked :
      ConsoleStatement → (reason : String) → (now : ℕ) → Op S (Unit {0})
  begin_cancel_locked statement reason now = this >>= λ r.
      if r.cancel_in_flight then return tt else (do
        change (fence_up statement reason now)
        send Request.request_soft_cancel
        put_statement (record statement { cancel_requested = true })
        if session_eq r.session.state ConsoleSessionState.executing
            then move_session ConsoleSessionState.cancelling
                (λ s. record s { last_activity_at = now })
            else return tt
        record_event (record statement { cancel_requested = true }) "cancel_requested" now
        dispatch Request.control_cancel (fail_with control_lane_missing))

  -- The session is idle again, and its deadline starts anew.
  unfoldable pub back_to_idle : (now : ℕ) → Op S (Unit {0})
  back_to_idle now = do
    r ← this
    state ← session_to r.session.state ConsoleSessionState.idle
    change (with_session (λ s. record s { state = state; last_activity_at = now }))
    change (λ r. record r { idle_deadline = idle_deadline_at now })
    save_session

  unfoldable pub settle_cancel_fence_locked : (statement_id : String) → (now : ℕ) → Op S (Unit {0})
  settle_cancel_fence_locked id now = this >>= λ r.
      if not r.cancel_in_flight || not (same_id r.cancel_statement_id id) then return tt else (do
        statement ← at_key (lookup id r.statements)
        change (λ r. record r { cancel_statement_done = is_terminal_statement statement.state })
        if not r.cancel_confirmed
              && not (r.cancel_control_done && is_terminal_statement statement.state)
            then return tt
            else (do
              change fence_down
              send Request.clear_soft_cancel
              if session_eq r.session.state ConsoleSessionState.cancelling
                  then back_to_idle now
                  else return tt))

  -- The loop of `_cancel_queued_locked`.
  unfoldable pub cancel_each :
      (event_type : String) → (now : ℕ) → List ConsoleStatement → Op S (Unit {0})
  cancel_each event_type now [] = return tt
  cancel_each event_type now (s ∷ rest) = do
    updated ← set_statement_state s ConsoleStatementState.cancelled now (some true) none none
    record_event updated event_type now
    cancel_each event_type now rest

  unfoldable pub cancel_queued_locked : (event_type : String) → (now : ℕ) → Op S (Unit {0})
  cancel_queued_locked event_type now = do
    r ← this
    cancel_each event_type now (filterb is_accepted (values r.statements))

  -- The cancellation of the statement that runs.
  unfoldable pub cancel_running : (now : ℕ) → Option String → Op S (Unit {0})
  cancel_running now none = return tt
  cancel_running now (some id) = do
    r ← this
    statement ← at_key (lookup id r.statements)
    if in_flight statement.state then begin_cancel_locked statement "close" now else return tt

  unfoldable pub queue_close_locked :
      (reason : String) → (cancel_current : Bool) → (now : ℕ) → Op S (Unit {0})
  queue_close_locked reason cancel_current now = this >>= λ r.
      if not r.accepting then return tt else (do
        change (λ r. record r { accepting = false })
        if cancel_current then cancel_running now r.current_statement_id else return tt
        if str_eq reason "shutdown"
            then cancel_queued_locked "cancelled_for_shutdown" now
            else return tt
        change (queue_close config.mailbox_size reason))
