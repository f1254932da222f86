-- ===== src/Broker/Store/Memory.antt =====
-- `MemoryBrokerStore` of app/broker/store.py. A method returns the new store and its result; the
-- lock makes each method one step. `_epochs` and the rest change before a `raise` and stay changed.
use data_ops_studio_v.Base.{
  ℕ, ◌+◌, String, Bool, true, false, Option, none, some, List, [], ◌∷◌, ◌++◌, ◌&&◌, max,
  if◌then◌else◌, str_eq, length, Result, ok, raise, Dict, lookup, insert, values, is_some,
}
use data_ops_studio_v.Base.Json.{Json}
use data_ops_studio_v.Broker.Store.{
  ConsoleSession, ConsoleStatement, ConsoleStatementEvent, AttachRequest, SweepReport, StoreError,
  StatementRequest, new_statement, new_session, lost, interrupted, is_stale, in_flight, in_ids,
}

pub record MemoryBrokerStore : Type 0 where
  pub sessions : Dict ConsoleSession
  pub statements : Dict ConsoleStatement
  pub events : List ConsoleStatementEvent
  pub epochs : Dict ℕ

abbrev pub or_zero : Option ℕ → ℕ
or_zero none = 0
or_zero (some n) = n

abbrev pub put_session : MemoryBrokerStore → ConsoleSession → MemoryBrokerStore
put_session m s = record m { sessions = insert s.id s m.sessions }

unfoldable pub attach_to :
    MemoryBrokerStore
    → ℕ
    → ℕ
    → Option ConsoleSession
    → MemoryBrokerStore × Result StoreError ConsoleSession
attach_to m epoch now none = (m, raise StoreError.session_missing)
attach_to m epoch now (some existing) =
    let attached = record existing { epoch = epoch; last_activity_at = now } in
    (put_session m attached, ok attached)

unfoldable pub attach_session :
    MemoryBrokerStore
    → AttachRequest
    → (session_id broker_boot_id : String) (now : ℕ) (reuse_session_id : Option String)
    → MemoryBrokerStore × Result StoreError ConsoleSession
unfolding attach_to
attach_session m request session_id broker_boot_id now reuse =
    let epoch = or_zero (lookup request.console_id m.epochs) + 1 in
    let m' = record m { epochs = insert request.console_id epoch m.epochs } in
    elim reuse [
      | some id ↦ attach_to m' epoch now (lookup id m'.sessions)
      | none ↦
          let attached = new_session request session_id broker_boot_id epoch now in
          (put_session m' attached, ok attached)
    ]

unfoldable pub update_session :
    MemoryBrokerStore → ConsoleSession → MemoryBrokerStore × Result StoreError (Unit {0})
update_session m s =
    if is_some (lookup s.id m.sessions)
    then (put_session m s, ok tt)
    else (m, raise StoreError.session_does_not_exist)

unfoldable pub get_session : MemoryBrokerStore → String → Option ConsoleSession
get_session m id = lookup id m.sessions

-- The first statement of the session under that request id, in the order of insertion.
unfoldable pub find_request : String → String → List ConsoleStatement → Option ConsoleStatement
find_request session_id request_id [] = none
find_request session_id request_id (s ∷ ss) =
    if str_eq s.session_id session_id && str_eq s.client_request_id request_id
    then some s
    else find_request session_id request_id ss

-- `max(seq of the session's statements, default=0)`.
unfoldable pub max_seq : String → List ConsoleStatement → ℕ
max_seq session_id [] = 0
max_seq session_id (s ∷ ss) =
    let rest = max_seq session_id ss in
    if str_eq s.session_id session_id then max s.seq rest else rest

unfoldable pub create_statement :
    MemoryBrokerStore
    → ConsoleSession
    → StatementRequest
    → MemoryBrokerStore × (ConsoleStatement × Bool)
create_statement m session r =
    elim (find_request session.id r.client_request_id (values m.statements)) [
      | some existing ↦ (m, (existing, true))
      | none ↦
          let statement = new_statement session r (1 + max_seq session.id (values m.statements)) in
          (record m { statements = insert statement.id statement m.statements }, (statement, false))
    ]

unfoldable pub update_statement :
    MemoryBrokerStore → ConsoleStatement → MemoryBrokerStore × Result StoreError (Unit {0})
update_statement m s =
    if is_some (lookup s.id m.statements)
    then (record m { statements = insert s.id s m.statements }, ok tt)
    else (m, raise StoreError.statement_does_not_exist)

unfoldable pub get_statement : MemoryBrokerStore → String → Option ConsoleStatement
get_statement m id = lookup id m.statements

unfoldable pub add_event :
    MemoryBrokerStore → String → String → ℕ → Option String → Option Json → MemoryBrokerStore
add_event m statement_id event_type now message detail = record m {
  events =
      m.events
      ++ record {
        id = length m.events + 1;
        statement_id = statement_id;
        ts = now;
        event_type = event_type;
        message = message;
        detail = detail;
      }
        ∷ [];
}

-- The first loop of `startup_sweep`, over the snapshot `tuple(self.sessions.items())`.
unfoldable pub sweep_sessions :
    String
    → ℕ
    → Dict ConsoleSession
    → Dict ConsoleSession × List String × ℕ
    → Dict ConsoleSession × List String × ℕ
sweep_sessions boot now [] acc = acc
sweep_sessions boot now ((id, s) ∷ rest) (sessions, stale, n) = sweep_sessions boot now rest (
    if is_stale boot s
    then (insert id (lost now s) sessions, stale ++ id ∷ [], n + 1)
    else (sessions, stale, n))

-- The second loop, over the snapshot `tuple(self.statements.items())`.
unfoldable pub sweep_statements :
    List String
    → ℕ
    → Dict ConsoleStatement
    → Dict ConsoleStatement × ℕ × ℕ
    → Dict ConsoleStatement × ℕ × ℕ
sweep_statements stale now [] acc = acc
sweep_statements stale now ((id, s) ∷ rest) (statements, unknown, failed) =
    sweep_statements stale now rest (
      if in_ids s.session_id stale && in_flight s.state
      then (
        insert id (interrupted now s) statements,
        (if s.is_write then unknown + 1 else unknown),
        (if s.is_write then failed else failed + 1),
      )
      else (statements, unknown, failed))

unfoldable pub startup_sweep :
    MemoryBrokerStore → (current_boot_id : String) (now : ℕ) → MemoryBrokerStore × SweepReport
startup_sweep m boot now =
    let (sessions, stale, lost_count) = sweep_sessions boot now m.sessions (m.sessions, [], 0) in
    let (statements, unknown, failed) =
      sweep_statements stale now m.statements (m.statements, 0, 0) in
    (
      record m { sessions = sessions; statements = statements },
      record { sessions_lost = lost_count; read_failed = failed; write_outcome_unknown = unknown },
    )
