-- ===== src/Broker/Core/Sessions.antt =====
-- The calls of `SessionBroker` that find a session first, app/broker/core.py.
use data_ops_studio_v.Base.{
  ℕ, String, Option, none, some, List, [], ◌∷◌, ◌++◌, lookup, insert, map, Result, raise, ok, ◌||◌,
  if◌then◌else◌,
}
use data_ops_studio_v.Broker.Core.{
  World, SessionRuntime, BrokerConfig, BrokerStore, Tools, SubmitReceipt, CancelReceipt, Fault,
  broker_error, value_error,
}
use data_ops_studio_v.Broker.Core.Op.{Op}
use data_ops_studio_v.Broker.Core.Client.{
  Submission, id_misfits, no_rows_asked, submit, cancel, close,
}
use data_ops_studio_v.Broker.Core.Control.{run_timers}
use data_ops_studio_v.Broker.Core.Attach.{SessionBroker}

module _ {S : Type 0} (api : BrokerStore S) (config : BrokerConfig) (tools : Tools) where
  -- What a step leaves behind.
  unfoldable pub put_back :
      {A : Type 0}
      → SessionBroker S
      → String
      → World S × Result Fault A
      → SessionBroker S × Result Fault A
  put_back b session_id (w, result) = (
    record b {
      store = w.store;
      sessions = insert session_id w.runtime b.sessions;
      statement_sessions = w.statement_sessions;
      sent = b.sent ++ map (λ q. (session_id, q)) w.sent;
    },
    result,
  )

  unfoldable pub on_runtime :
      {A : Type 0}
      → SessionBroker S
      → String
      → Op S A
      → Option SessionRuntime
      → SessionBroker S × Result Fault A
  on_runtime b session_id m none = (b, raise (broker_error "session_lost" none))
  on_runtime b session_id m (some r) = put_back b session_id (
      m (record {
        store = b.store;
        runtime = r;
        statement_sessions = b.statement_sessions;
        controls = b.controls;
        sent = [];
      }))

  -- `_require_runtime`, and a step of the session that it finds.
  unfoldable pub on_session :
      {A : Type 0} → SessionBroker S → String → Op S A → SessionBroker S × Result Fault A
  on_session b session_id m = on_runtime b session_id m (lookup session_id b.sessions)

  -- The arguments are checked before the session is looked for.
  unfoldable pub submit_to :
      SessionBroker S → String → Submission → SessionBroker S × Result Fault SubmitReceipt
  submit_to b session_id q =
      if id_misfits api config tools q || no_rows_asked api config tools q
      then (b, raise value_error)
      else on_session b session_id (submit api config tools q)

  unfoldable pub cancel_in :
      SessionBroker S
      → String
      → (epoch now : ℕ) → Option String
      → SessionBroker S × Result Fault CancelReceipt
  cancel_in b statement_id epoch now none =
      (b, raise (broker_error "statement_not_cancellable" none))
  cancel_in b statement_id epoch now (some session_id) =
      on_session b session_id (cancel api config tools statement_id epoch now)

  -- `_runtime_for_statement`, and `cancel`.
  unfoldable pub cancel_on :
      SessionBroker S → String → (epoch now : ℕ) → SessionBroker S × Result Fault CancelReceipt
  cancel_on b statement_id epoch now =
      cancel_in b statement_id epoch now (lookup statement_id b.statement_sessions)

  unfoldable pub close_on :
      SessionBroker S → String → (epoch now : ℕ) → SessionBroker S × Result Fault (Unit {0})
  close_on b session_id epoch now =
      on_session b session_id (close api config tools epoch "user" now)

  unfoldable pub goes_on :
      SessionBroker S × Result Fault (Unit {0})
      → (SessionBroker S → SessionBroker S × Result Fault (Unit {0}))
      → SessionBroker S × Result Fault (Unit {0})
  goes_on (b, raise e) next = (b, raise e)
  goes_on (b, ok u) next = next b

  -- The loop of `run_timers_once` over the sessions; an exception ends it.
  unfoldable pub run_timers_on :
      List String → (now : ℕ) → SessionBroker S → SessionBroker S × Result Fault (Unit {0})
  run_timers_on [] now b = (b, ok tt)
  run_timers_on (id ∷ ids) now b =
      goes_on (on_session b id (run_timers api config now)) (run_timers_on ids now)

  unfoldable pub run_timers_once :
      SessionBroker S → (now : ℕ) → SessionBroker S × Result Fault (Unit {0})
  run_timers_once b now = run_timers_on (map (λ e. e.0) b.sessions) now b
