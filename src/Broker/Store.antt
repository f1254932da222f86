-- ===== src/Broker/Store.antt =====
-- app/broker/store.py: the records of app/domain/console_session.py that the store keeps, and
-- what its two implementations share. Times are numbers, and `datetime | None` is an option.
pub mod Memory
pub mod Postgres
pub mod Sweep
pub mod Requests
pub mod Attach
use data_ops_studio_v.Base.{
  ℕ, String, Bool, true, false, Option, none, some, List, [], ◌∷◌, ◌||◌, if◌then◌else◌, str_eq, any,
}
use data_ops_studio_v.Base.Json.{Json}
use data_ops_studio_v.Broker.State.{
  ConsoleSessionState, ConsoleStatementState, statement_eq, is_active,
}

pub data ServerCancelState : Type 0 where
  available degraded unknown : ServerCancelState

pub data ConsoleStatementKind : Type 0 where
  select dml ddl plsql other : ConsoleStatementKind

pub record ConsoleSession : Type 0 where
  pub id : String
  pub console_id : String
  pub datasource_id : String
  pub owner_user_id : String
  pub epoch : ℕ
  pub state : ConsoleSessionState
  pub broker_boot_id : String
  pub db_session_marker : Option String
  pub server_cancel : ServerCancelState
  pub autocommit : Bool
  pub created_at : ℕ
  pub last_activity_at : ℕ
  pub closed_at : Option ℕ
  pub close_reason : Option String
  pub error_code : Option String

pub record ConsoleStatement : Type 0 where
  pub id : String
  pub session_id : String
  pub console_id : String
  pub datasource_id : String
  pub owner_user_id : String
  pub epoch : ℕ
  pub seq : ℕ
  pub client_request_id : String
  pub sql_text : String
  pub sql_hash : String
  pub sql_len : ℕ
  pub statement_kind : ConsoleStatementKind
  pub is_write : Bool
  pub state : ConsoleStatementState
  pub cancel_requested : Bool
  pub result_set_id : Option String
  pub rows_affected : Option ℕ
  pub error_code : Option String
  pub error_summary : Option String
  pub timeout_seconds : ℕ
  pub script_id : Option String
  pub script_seq : Option ℕ
  pub resolved_by : Option String
  pub resolved_at : Option ℕ
  pub resolution : Option String
  pub submitted_at : ℕ
  pub started_at : Option ℕ
  pub finished_at : Option ℕ

pub record ConsoleStatementEvent : Type 0 where
  pub id : ℕ
  pub statement_id : String
  pub ts : ℕ
  pub event_type : String
  pub message : Option String
  pub detail : Option Json

pub record AttachRequest : Type 0 where
  pub console_id : String
  pub datasource_id : String
  pub owner_user_id : String

pub record SweepReport : Type 0 where
  pub sessions_lost : ℕ
  pub read_failed : ℕ
  pub write_outcome_unknown : ℕ

-- `BrokerStoreError` by its messages, and what SQLAlchemy raises itself.
pub data StoreError : Type 0 where
  session_missing session_does_not_exist statement_does_not_exist console_changed : StoreError
  no_result_found multiple_results_found integrity_error : StoreError

unfoldable pub in_flight : ConsoleStatementState → Bool
unfolding statement_eq
in_flight s =
    any (statement_eq s) (ConsoleStatementState.executing ∷ ConsoleStatementState.streaming ∷ [])

-- The arguments of `create_statement`.
pub record StatementRequest : Type 0 where
  pub statement_id : String
  pub client_request_id : String
  pub sql : String
  pub sql_hash : String
  pub sql_len : ℕ
  pub timeout_seconds : ℕ
  pub now : ℕ
  pub is_write : Bool

unfoldable pub new_statement : ConsoleSession → StatementRequest → ℕ → ConsoleStatement
new_statement session r seq = record {
  id = r.statement_id;
  session_id = session.id;
  console_id = session.console_id;
  datasource_id = session.datasource_id;
  owner_user_id = session.owner_user_id;
  epoch = session.epoch;
  seq = seq;
  client_request_id = r.client_request_id;
  sql_text = r.sql;
  sql_hash = r.sql_hash;
  sql_len = r.sql_len;
  statement_kind = if r.is_write then ConsoleStatementKind.other else ConsoleStatementKind.select;
  is_write = r.is_write;
  state = ConsoleStatementState.accepted;
  cancel_requested = false;
  result_set_id = none;
  rows_affected = none;
  error_code = none;
  error_summary = none;
  timeout_seconds = r.timeout_seconds;
  script_id = none;
  script_seq = none;
  resolved_by = none;
  resolved_at = none;
  resolution = none;
  submitted_at = r.now;
  started_at = none;
  finished_at = none;
}

-- The session that `attach_session` creates.
unfoldable pub new_session : AttachRequest → String → String → ℕ → ℕ → ConsoleSession
new_session request session_id broker_boot_id epoch now = record {
  id = session_id;
  console_id = request.console_id;
  datasource_id = request.datasource_id;
  owner_user_id = request.owner_user_id;
  epoch = epoch;
  state = ConsoleSessionState.connecting;
  broker_boot_id = broker_boot_id;
  db_session_marker = none;
  server_cancel = ServerCancelState.unknown;
  autocommit = true;
  created_at = now;
  last_activity_at = now;
  closed_at = none;
  close_reason = none;
  error_code = none;
}

-- What both sweeps write: a lost session, and the two ends of an interrupted statement.
unfoldable pub lost : ℕ → ConsoleSession → ConsoleSession
lost now s = record s {
  state = ConsoleSessionState.session_lost;
  closed_at = some now;
  close_reason = some "broker_restart";
  error_code = some "broker_restart";
}

unfoldable pub interrupted : ℕ → ConsoleStatement → ConsoleStatement
interrupted now s = record s {
  state =
      if s.is_write then ConsoleStatementState.outcome_unknown else ConsoleStatementState.failed;
  error_code = some "broker_restart";
  error_summary = some "broker restarted before statement outcome was observed";
  finished_at = some now;
}

unfoldable pub is_stale : String → ConsoleSession → Bool
is_stale boot s = if str_eq s.broker_boot_id boot then false else is_active s.state

-- `x in ids`.
abbrev pub in_ids : String → List String → Bool
in_ids x ids = any (str_eq x) ids
