-- ===== src/Broker/Tests.antt =====
-- Runs of the session broker's store and state tables at concrete inputs.
use data_ops_studio_v.Base.{
  ◌≡◌, ◌≤◌, ◌+◌, refl, true, false, none, some, List, [], ◌∷◌, ok, raise, length, if◌then◌else◌,
  lookup,
}
use mathlib.Core.Option
use data_ops_studio_v.Broker.State.{
  ConsoleSessionState, ConsoleStatementState, is_active, session_eq, session_listed, statement_eq,
  statement_listed, transition_session, transition_statement, run_session, run_statement,
}
use data_ops_studio_v.Broker.State.Lifecycle.{
  run_session-inactive, run_session-closes, changes-le-stage, changes, stage,
}
use data_ops_studio_v.Broker.Store.{
  ConsoleSession, ConsoleStatement, AttachRequest, StatementRequest, new_session, new_statement,
  lost, is_stale, in_flight, session_missing,
}
use data_ops_studio_v.Broker.Store.Memory.{
  MemoryBrokerStore, create_statement, startup_sweep, sweep_sessions, sweep_statements,
}
use data_ops_studio_v.Broker.Store.Memory
use data_ops_studio_v.Broker.Store.Postgres.{Tables, SqlConsole}
use data_ops_studio_v.Broker.Store.Postgres
use data_ops_studio_v.Broker.Store.Sweep.Agreement.{Mirrors, sweep_agrees}
use data_ops_studio_v.Broker.Store.Sweep.Effect.{sweep_at, sweep_twice}
use data_ops_studio_v.Broker.Store.Requests.{create_statement_twice, create_statement_fresh}
use data_ops_studio_v.Broker.Store.Attach.{attach_epoch, attach_reuse_inactive}

run_session-inactive_example : ConsoleSessionState.closed ≡ ConsoleSessionState.closed
unfolding run_session transition_session session_eq session_listed is_active
run_session-inactive_example =
    run_session-inactive ConsoleSessionState.closed (ConsoleSessionState.closed ∷ [])
      ConsoleSessionState.closed refl refl

run_session-closes_example :
    (ts : List ConsoleSessionState) × (run_session ConsoleSessionState.cancelling ts
      ≡ ok ConsoleSessionState.closed)
    × (length ts ≤ 2)
unfolding is_active
run_session-closes_example = run_session-closes ConsoleSessionState.cancelling refl

abbrev life : List ConsoleStatementState
life =
    ConsoleStatementState.executing ∷ ConsoleStatementState.streaming
    ∷ ConsoleStatementState.succeeded ∷ []

changes-le-stage_example :
    (changes ConsoleStatementState.accepted life + stage ConsoleStatementState.accepted
      ≤ stage ConsoleStatementState.succeeded)
    × (changes ConsoleStatementState.accepted life ≤ 3)
unfolding run_statement transition_statement statement_eq statement_listed
changes-le-stage_example =
    changes-le-stage ConsoleStatementState.accepted life ConsoleStatementState.succeeded refl

abbrev caller : AttachRequest
caller = record { console_id = "c1"; datasource_id = "d1"; owner_user_id = "u1" }

abbrev first_session : ConsoleSession
unfolding new_session
first_session = new_session caller "s1" "boot-a" 1 10

abbrev executing_session : ConsoleSession
unfolding new_session
executing_session = record first_session { state = ConsoleSessionState.executing }

abbrev closed_session : ConsoleSession
unfolding new_session
closed_session = record first_session { state = ConsoleSessionState.closed }

abbrev ask : StatementRequest
ask = record {
  statement_id = "q1";
  client_request_id = "r1";
  sql = "select 1";
  sql_hash = "sha256:0";
  sql_len = 8;
  timeout_seconds = 600;
  now = 11;
  is_write = true;
}

abbrev running_statement : ConsoleStatement
unfolding new_session new_statement
running_statement = record (new_statement executing_session ask 1) {
  state = ConsoleStatementState.executing;
}

abbrev memory : MemoryBrokerStore
memory = record {
  sessions = ("s1", executing_session) ∷ [];
  statements = ("q1", running_statement) ∷ [];
  events = [];
  epochs = ("c1", 1) ∷ [];
}

abbrev console : SqlConsole
console = record { id = "c1"; datasource_id = "d1"; owner_user_id = "u1"; session_epoch = 1 }

abbrev tables : Tables
tables = record {
  sql_consoles = console ∷ [];
  console_sessions = executing_session ∷ [];
  console_statements = running_statement ∷ [];
  console_statement_events = [];
}

mirrored : Mirrors memory tables
unfolding new_session new_statement
mirrored = record {
  same_sessions = refl;
  same_statements = refl;
  session_dict = (tt, tt);
  statement_dict = (tt, tt);
  session_keyed = (refl, tt);
  statement_keyed = (refl, tt);
}

sweep_agrees_example :
    Mirrors
      (Memory.startup_sweep memory "boot-b" 20).0
      (Postgres.startup_sweep tables "boot-b" 20).0
    × ((Memory.startup_sweep memory "boot-b" 20).1 ≡ (Postgres.startup_sweep tables "boot-b" 20).1)
sweep_agrees_example = sweep_agrees memory tables "boot-b" 20 mirrored

-- A write that was running is reported as of unknown outcome.
swept_report :
    (Memory.startup_sweep memory "boot-b" 20).1
    ≡ record { sessions_lost = 1; read_failed = 0; write_outcome_unknown = 1 }
unfolding Memory.startup_sweep sweep_sessions sweep_statements is_stale is_active in_flight
    statement_eq new_session new_statement
swept_report = refl

sweep_twice_example : startup_sweep (startup_sweep memory "boot-b" 20).0 "boot-b" 21 ≡ (
  (startup_sweep memory "boot-b" 20).0,
  record { sessions_lost = 0; read_failed = 0; write_outcome_unknown = 0 },
)
sweep_twice_example = sweep_twice memory "boot-b" 20 21 (tt, tt) (tt, tt)

sweep_at_example :
    (lookup "s1" (startup_sweep memory "boot-b" 20).0.sessions
      ≡ Option.map
          (λ s. if is_stale "boot-b" s then lost 20 s else s)
          (lookup "s1" memory.sessions))
    × (lookup "s1" (startup_sweep memory "boot-b" 20).0.statements ≡ none)
unfolding lookup
sweep_at_example = sweep_at memory "boot-b" 20 "s1" (tt, tt) (tt, tt)

abbrev retry : StatementRequest
retry = record ask { statement_id = "q3"; sql = "select 2" }

abbrev ask_other : StatementRequest
ask_other = record ask { statement_id = "q2"; client_request_id = "r2" }

create_statement_twice_example :
    create_statement
      (create_statement memory executing_session ask_other).0
      executing_session
      (record retry { client_request_id = "r2" })
    ≡ (
      (create_statement memory executing_session ask_other).0,
      ((create_statement memory executing_session ask_other).1.0, true),
    )
create_statement_twice_example =
    create_statement_twice memory executing_session ask_other
      (record retry { client_request_id = "r2" }) (refl, tt) refl

create_statement_fresh_example : (create_statement memory executing_session ask_other).1.1 ≡ false
unfolding Memory.find_request new_statement new_session
create_statement_fresh_example =
    (create_statement_fresh memory executing_session ask_other "q1" refl).0

attach_epoch_example :
    let reply = Memory.attach_session memory caller "s2" "boot-a" 30 (some "s1") in
    Memory.get_session reply.0 "s1"
    ≡ some (record executing_session { epoch = 2; last_activity_at = 30 })
unfolding Memory.attach_session lookup new_session
attach_epoch_example =
    (attach_epoch memory caller "s2" "boot-a" 30 (some "s1")
      (record executing_session { epoch = 2; last_activity_at = 30 }) "c1" refl).2

abbrev closed_memory : MemoryBrokerStore
closed_memory = record memory { sessions = ("s1", closed_session) ∷ [] }

abbrev closed_tables : Tables
closed_tables = record tables { console_sessions = closed_session ∷ [] }

closed_mirrored : Mirrors closed_memory closed_tables
unfolding new_session new_statement
closed_mirrored = record {
  same_sessions = refl;
  same_statements = refl;
  session_dict = (tt, tt);
  statement_dict = (tt, tt);
  session_keyed = (refl, tt);
  statement_keyed = (refl, tt);
}

attach_reuse_inactive_example :
    ((Memory.attach_session closed_memory caller "s2" "boot-a" 30 (some "s1")).1
      ≡ ok (record closed_session { epoch = 2; last_activity_at = 30 }))
    × (Postgres.attach_session closed_tables caller "s2" "boot-a" 30 (some "s1")
        ≡ raise session_missing)
unfolding lookup is_active Postgres.owned_by new_session
attach_reuse_inactive_example =
    attach_reuse_inactive closed_memory closed_tables caller "s2" "boot-a" "s1" 30 closed_session
      console closed_mirrored refl refl refl
