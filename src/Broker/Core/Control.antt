-- ===== src/Broker/Core/Control.antt =====
-- The answers of the control lane, and one round of the timer for one session, app/broker/core.py.
use data_ops_studio_v.Base.{
  ℕ, String, Bool, true, false, not, Option, none, some, ◌&&◌, lookup, if◌then◌else◌, leb,
}
use data_ops_studio_v.Broker.State.{ConsoleSessionState, session_eq}
use data_ops_studio_v.Broker.Store.{ConsoleStatement}
use data_ops_studio_v.Broker.Core.{BrokerConfig, BrokerStore, Request}
use data_ops_studio_v.Broker.Core.Op.{Op, ◌>>=◌, ◌>>◌, return, this, change, at_key}
use data_ops_studio_v.Broker.Core.Changes.{
  dispatch, record_event, set_statement_state, begin_cancel_locked, lose_session_locked,
  settle_cancel_fence_locked, queue_close_locked, is_terminal_statement,
}
use data_ops_studio_v.Broker.Core.Lane.{lost_outcome}

-- `deadline is not None and now >= deadline`.
abbrev pub is_past : Option ℕ → ℕ → Bool
is_past none now = false
is_past (some deadline) now = leb deadline now

module _ {S : Type 0} (api : BrokerStore S) (config : BrokerConfig) where
  unfoldable pub on_control_cancel_done : (failed : Bool) → (now : ℕ) → Op S (Unit {0})
  on_control_cancel_done failed now = this >>= λ r. elim r.cancel_statement_id [
    | none ↦ return tt
    | some id ↦ do
      statement ← at_key (lookup id r.statements)
      change (λ r. record r { cancel_control_done = true })
      record_event api config statement (if failed then "cancel_failed" else "cancel_dispatched")
          now
      settle_cancel_fence_locked api config id now
  ]

  -- The statement of a session that is destroyed.
  unfoldable pub abort_statement : ConsoleStatement → (now : ℕ) → Op S (Unit {0})
  abort_statement statement now =
      if is_terminal_statement statement.state
      then return tt
      else set_statement_state api config statement (lost_outcome statement.is_write) now none
          (some "connection_aborted") (some "cancel escalation destroyed the session")
        >>= λ _. return tt

  unfoldable pub on_control_destroy_done : (failed : Bool) → (now : ℕ) → Op S (Unit {0})
  on_control_destroy_done failed now = this >>= λ r. elim r.cancel_statement_id [
    | none ↦ return tt
    | some id ↦ do
      statement ← at_key (lookup id r.statements)
      record_event api config statement (if failed then "destroy_failed" else "cancel_escalated")
          now
      abort_statement statement now
      lose_session_locked api config "cancel_escalated" now
      change (λ r. record r { current_statement_id = none; statement_deadline = none })
  ]

  abbrev pub cancel_for_timeout : String → (now : ℕ) → Op S (Unit {0})
  cancel_for_timeout id now = do
    r ← this
    statement ← at_key (lookup id r.statements)
    begin_cancel_locked api config statement "timeout" now

  -- The three tests of `run_timers_once` for one session.
  unfoldable pub timeout_statement : (now : ℕ) → Op S (Unit {0})
  timeout_statement now = this >>= λ r. elim r.current_statement_id [
    | none ↦ return tt
    | some id ↦
        if is_past r.statement_deadline now && not r.cancel_in_flight
        then cancel_for_timeout id now
        else return tt
  ]

  unfoldable pub escalate_cancel : (now : ℕ) → Op S (Unit {0})
  escalate_cancel now = this >>= λ r.
      if r.cancel_in_flight && not r.cancel_destroy_sent && is_past r.cancel_grace_deadline now
      then (do
        change (λ r. record r { cancel_destroy_sent = true })
        dispatch api config Request.control_destroy (return tt))
      else return tt

  unfoldable pub close_idle : (now : ℕ) → Op S (Unit {0})
  close_idle now = this >>= λ r.
      if r.accepting
        && session_eq r.session.state ConsoleSessionState.idle
        && is_past r.idle_deadline now
      then queue_close_locked api config "idle_timeout" false now
      else return tt

  unfoldable pub run_timers : (now : ℕ) → Op S (Unit {0})
  run_timers now = do timeout_statement now; escalate_cancel now; close_idle now
