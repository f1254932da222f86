-- ===== src/Broker/Core/Attach.antt =====
-- `SessionBroker` of app/broker/core.py: its sessions and `attach`. The id that `attach` draws, its time and what the control lane answers are arguments.
use data_ops_studio_v.Base.{
  ℕ, String, Bool, true, false, Option, none, some, List, [], ◌∷◌, ◌++◌, ◌||◌, Dict, lookup, insert,
  values, length, filterb, map, any, if◌then◌else◌, leb, str_eq, Result, raise, ok,
}
use data_ops_studio_v.Broker.State.{ConsoleSessionState, session_eq, is_active}
use data_ops_studio_v.Broker.Store.{ConsoleSession, AttachRequest, ServerCancelState, StoreError}
use data_ops_studio_v.Broker.Core.{
  SessionRuntime, SessionLimits, BrokerConfig, BrokerStore, Tools, Request, Fault, broker_error,
  store_error, not_running, connection_error,
}
use data_ops_studio_v.Broker.Core.Op.{Op, ◌>>=◌, ◌>>◌, return, this, change}
use data_ops_studio_v.Broker.Core.Changes.{idle_deadline_at, save_session, with_session}

-- `_sessions`, `_console_sessions`, `_statement_sessions`, `_controls` by their datasources, and the
-- store; `sent` is what was asked of the connection and the control lane of each session.
pub record SessionBroker (S : Type 0) : Type 0 where
  pub store : S
  pub sessions : Dict SessionRuntime
  pub console_sessions : Dict String
  pub statement_sessions : Dict String
  pub controls : List String
  pub sent : List (String × Request)
  pub is_running : Bool
  pub boot_id : String

-- A session as `attach` makes it.
unfoldable pub new_runtime : ConsoleSession → Option ℕ → SessionRuntime
new_runtime session idle_deadline = record {
  session = session;
  mailbox = [];
  statements = [];
  requests = [];
  spools = [];
  accepting = true;
  pending_count = 0;
  taken = none;
  current_statement_id = none;
  statement_deadline = none;
  idle_deadline = idle_deadline;
  cancel_in_flight = false;
  cancel_statement_id = none;
  cancel_reason = none;
  cancel_control_done = false;
  cancel_statement_done = false;
  cancel_confirmed = false;
  cancel_grace_deadline = none;
  cancel_destroy_sent = false;
  close_reason_pending = none;
}

unfoldable pub active_sessions : Dict SessionRuntime → List ConsoleSession
active_sessions sessions =
    filterb (λ s. is_active s.state) (map (λ (r : SessionRuntime). r.session) (values sessions))

unfoldable pub count_owned : String → List ConsoleSession → ℕ
count_owned user active =
    length (filterb (λ (s : ConsoleSession). str_eq s.owner_user_id user) active)

unfoldable pub count_on : String → List ConsoleSession → ℕ
count_on datasource active =
    length (filterb (λ (s : ConsoleSession). str_eq s.datasource_id datasource) active)

-- The test of `_enforce_session_limits`.
unfoldable pub limit_reached : SessionLimits → AttachRequest → List ConsoleSession → Bool
limit_reached limits request active =
    leb limits.global_total (length active)
    || leb limits.per_user (count_owned request.owner_user_id active)
    || leb limits.per_datasource (count_on request.datasource_id active)

unfoldable pub if_active : Option SessionRuntime → Option SessionRuntime
if_active none = none
if_active (some r) = if is_active r.session.state then some r else none

module _ {S : Type 0} (api : BrokerStore S) (config : BrokerConfig) (tools : Tools) where
  unfoldable pub session_named : SessionBroker S → Option String → Option SessionRuntime
  session_named b none = none
  session_named b (some id) = if_active (lookup id b.sessions)

  -- The session of a console, if it is active.
  unfoldable pub existing_session : SessionBroker S → String → Option SessionRuntime
  existing_session b console_id = session_named b (lookup console_id b.console_sessions)

  unfoldable pub reattached :
      SessionBroker S
      → SessionRuntime
      → S × Result StoreError ConsoleSession
      → SessionBroker S × Result Fault ConsoleSession
  reattached b r (store, raise e) = (record b { store = store }, raise (store_error e))
  reattached b r (store, ok attached) = (
    record b {
      store = store;
      sessions =
          insert r.session.id
            (record r {
              session = attached;
              idle_deadline = idle_deadline_at api config attached.last_activity_at;
            })
            b.sessions;
    },
    ok attached,
  )

  -- The store has the session before the connection factory is called, which may raise.
  unfoldable pub attached_new :
      SessionBroker S
      → (now : ℕ) → S × Result StoreError ConsoleSession
      → SessionBroker S × Result Fault ConsoleSession
  attached_new b now (store, raise e) = (record b { store = store }, raise (store_error e))
  attached_new b now (store, ok session) =
      if tools.connects session
      then (
        record b {
          store = store;
          sessions =
              insert session.id (new_runtime session (idle_deadline_at api config now)) b.sessions;
          console_sessions = insert session.console_id session.id b.console_sessions;
        },
        ok session,
      )
      else (record b { store = store }, raise connection_error)

  unfoldable pub attach_found :
      SessionBroker S
      → AttachRequest
      → (session_id : String) → (now : ℕ) → Option SessionRuntime
      → SessionBroker S × Result Fault ConsoleSession
  attach_found b request session_id now (some r) =
      reattached b r
        (api.attach_session b.store request r.session.id b.boot_id now (some r.session.id))
  attach_found b request session_id now none =
      if limit_reached config.limits request (active_sessions b.sessions)
      then (b, raise (broker_error "session_limit_reached" none))
      else attached_new b now (api.attach_session b.store request session_id b.boot_id now none)

  -- The part of `_attach_serial` under its first lock.
  unfoldable pub attach_serial :
      SessionBroker S
      → AttachRequest
      → (session_id : String) → (now : ℕ) → SessionBroker S × Result Fault ConsoleSession
  attach_serial b request session_id now =
      if b.is_running
      then attach_found b request session_id now (existing_session b request.console_id)
      else (b, raise not_running)

  -- `_ensure_control_lane`.
  unfoldable pub ensure_control_lane : SessionBroker S → String → SessionBroker S
  ensure_control_lane b datasource_id =
      if any (str_eq datasource_id) b.controls
      then b
      else record b { controls = b.controls ++ datasource_id ∷ [] }

  -- The part of `_attach_serial` under its second lock; the lane thread starts after it.
  unfoldable pub attach_ready : ServerCancelState → Op S ConsoleSession
  attach_ready support = do
    r ← this
    if session_eq r.session.state ConsoleSessionState.connecting
        then (change (with_session (λ s. record s { server_cancel = support }))
            >> save_session api config)
        else return tt
    r ← this
    return r.session
