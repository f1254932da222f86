-- ===== src/Broker/Store/Postgres.antt =====
-- `PostgresBrokerStore` of app/broker/store.py over the tables of app/db/models.py, as lists of
-- rows. An operation is one transaction: it returns the new tables, or raises and changes nothing.
-- Of the constraints the model has the primary keys, `uq_console_active_session` and
-- `uq_console_statements_session_request`; the foreign keys are left out.
use data_ops_studio_v.Base.{
  ℕ, ◌+◌, ◌-◌, String, Bool, true, false, not, Option, none, some, List, [], ◌∷◌, ◌++◌, ◌&&◌, ◌||◌,
  map, if◌then◌else◌, str_eq, ◌==◌, length, any, filterb, Result, ok, raise, ◌>>=◌, ◌>>◌, raise_if,
}
use data_ops_studio_v.Sql.{update_where, returning}
use data_ops_studio_v.Broker.State.{is_active}
use data_ops_studio_v.Broker.Store.{
  ConsoleSession, ConsoleStatement, ConsoleStatementEvent, AttachRequest, SweepReport, StoreError,
  no_result_found, multiple_results_found, integrity_error, console_changed, session_missing,
  session_does_not_exist, statement_does_not_exist, StatementRequest, new_statement, new_session,
  lost, interrupted, is_stale, in_flight, in_ids,
}
use data_ops_studio_v.Broker.Store.Memory.{max_seq}

pub record SqlConsole : Type 0 where
  pub id : String
  pub datasource_id : String
  pub owner_user_id : String
  pub session_epoch : ℕ

pub record Tables : Type 0 where
  pub sql_consoles : List SqlConsole
  pub console_sessions : List ConsoleSession
  pub console_statements : List ConsoleStatement
  pub console_statement_events : List ConsoleStatementEvent

unfoldable pub one_or_none : {A : Type 0} → List A → Result StoreError (Option A)
one_or_none [] = ok none
one_or_none (a ∷ []) = ok (some a)
one_or_none _ = raise multiple_results_found

unfoldable pub one : {A : Type 0} → List A → Result StoreError A
one [] = raise no_result_found
one (a ∷ []) = ok a
one _ = raise multiple_results_found

-- The row `s` may not stand beside a row with its key, or, while active, beside an active row of
-- its console.
unfoldable pub clashes : ConsoleSession → ConsoleSession → Bool
clashes s t =
    str_eq s.id t.id || (is_active s.state && is_active t.state && str_eq s.console_id t.console_id)

unfoldable pub sessions_violate : List ConsoleSession → Bool
sessions_violate [] = false
sessions_violate (s ∷ ss) = any (clashes s) ss || sessions_violate ss

unfoldable pub statement_clashes : ConsoleStatement → ConsoleStatement → Bool
statement_clashes s t =
    str_eq s.id t.id
    || (str_eq s.session_id t.session_id && str_eq s.client_request_id t.client_request_id)

unfoldable pub statements_violate : List ConsoleStatement → Bool
statements_violate [] = false
statements_violate (s ∷ ss) = any (statement_clashes s) ss || statements_violate ss

unfoldable pub or_raise : {A : Type 0} → Option A → StoreError → Result StoreError A
or_raise none e = raise e
or_raise (some a) e = ok a

unfoldable pub owned_by : AttachRequest → SqlConsole → Bool
owned_by r c =
    str_eq c.id r.console_id
    && str_eq c.datasource_id r.datasource_id
    && str_eq c.owner_user_id r.owner_user_id

unfoldable pub next_epoch : SqlConsole → SqlConsole
next_epoch c = record c { session_epoch = c.session_epoch + 1 }

-- The two branches behind the epoch row.
unfoldable pub reuse_session : Tables → ℕ → ℕ → String → Result StoreError (Tables × ConsoleSession)
unfolding update_where returning one_or_none or_raise
reuse_session p epoch now id = do
  let here = λ (s : ConsoleSession). str_eq s.id id && is_active s.state
  let touch = λ (s : ConsoleSession). record s { epoch = epoch; last_activity_at = now }
  row ← one_or_none (returning here touch p.console_sessions)
  attached ← or_raise row session_missing
  ok (record p { console_sessions = update_where here touch p.console_sessions }, attached)

unfoldable pub add_session : Tables → ConsoleSession → Result StoreError (Tables × ConsoleSession)
add_session p s = do
  let sessions = p.console_sessions ++ s ∷ []
  raise_if (sessions_violate sessions) integrity_error
  ok (record p { console_sessions = sessions }, s)

unfoldable pub attach_session :
    Tables
    → AttachRequest
    → (session_id broker_boot_id : String) (now : ℕ) (reuse_session_id : Option String)
    → Result StoreError (Tables × ConsoleSession)
unfolding owned_by next_epoch update_where returning one_or_none or_raise reuse_session add_session
attach_session p request session_id broker_boot_id now reuse = do
  epoch_row ← one_or_none (returning (owned_by request) next_epoch p.sql_consoles)
  console ← or_raise epoch_row console_changed
  let p' = record p { sql_consoles = update_where (owned_by request) next_epoch p.sql_consoles }
  elim reuse [
    | some id ↦ reuse_session p' console.session_epoch now id
    | none ↦
        add_session p' (new_session request session_id broker_boot_id console.session_epoch now)
  ]

unfoldable pub update_session : Tables → ConsoleSession → Result StoreError (Tables × Unit {0})
unfolding update_where
update_session p s = do
  let here = λ (t : ConsoleSession). str_eq t.id s.id
  let sessions = update_where here (λ t. s) p.console_sessions
  raise_if (sessions_violate sessions) integrity_error
  raise_if (not (length (filterb here p.console_sessions) == 1)) session_does_not_exist
  ok (record p { console_sessions = sessions }, tt)

unfoldable pub get_session : Tables → String → Result StoreError (Option ConsoleSession)
unfolding one_or_none
get_session p id = one_or_none (filterb (λ s. str_eq s.id id) p.console_sessions)

unfoldable pub matches_request : String → String → ConsoleStatement → Bool
matches_request session_id request_id s =
    str_eq s.session_id session_id && str_eq s.client_request_id request_id

unfoldable pub add_statement :
    Tables → ConsoleStatement → Result StoreError (Tables × (ConsoleStatement × Bool))
add_statement p s = do
  let statements = p.console_statements ++ s ∷ []
  raise_if (statements_violate statements) integrity_error
  ok (record p { console_statements = statements }, (s, false))

unfoldable pub create_statement :
    Tables
    → ConsoleSession
    → StatementRequest
    → Result StoreError (Tables × (ConsoleStatement × Bool))
unfolding one one_or_none add_statement matches_request
create_statement p session r = do
  locked ← one (filterb (λ s. str_eq s.id session.id) p.console_sessions)
  existing ←
      one_or_none (filterb (matches_request session.id r.client_request_id) p.console_statements)
  elim existing [
    | some s ↦ ok (p, (s, true))
    | none ↦ add_statement p (new_statement session r (max_seq session.id p.console_statements + 1))
  ]

unfoldable pub update_statement : Tables → ConsoleStatement → Result StoreError (Tables × Unit {0})
unfolding update_where
update_statement p s = do
  let here = λ (t : ConsoleStatement). str_eq t.id s.id
  let statements = update_where here (λ t. s) p.console_statements
  raise_if (statements_violate statements) integrity_error
  raise_if (not (length (filterb here p.console_statements) == 1)) statement_does_not_exist
  ok (record p { console_statements = statements }, tt)

unfoldable pub get_statement : Tables → String → Result StoreError (Option ConsoleStatement)
unfolding one_or_none
get_statement p id = one_or_none (filterb (λ s. str_eq s.id id) p.console_statements)

-- The statements that the sweep ends.
unfoldable pub is_interrupted : List String → ConsoleStatement → Bool
is_interrupted stale s = in_ids s.session_id stale && in_flight s.state

unfoldable pub is_nil : {A : Type 0} → List A → Bool
is_nil [] = true
is_nil (_ ∷ _) = false

-- The two updates only take rows out of the active and in-flight states, so no index refuses them.
unfoldable pub startup_sweep : Tables → (current_boot_id : String) (now : ℕ) → Tables × SweepReport
unfolding update_where returning is_nil
startup_sweep p boot now =
    let stale_ids =
      map (λ (s : ConsoleSession). s.id) (filterb (is_stale boot) p.console_sessions) in
    let changed = returning (is_interrupted stale_ids) (interrupted now) p.console_statements in
    let read_failed = length (filterb (λ (s : ConsoleStatement). not s.is_write) changed) in
    if is_nil stale_ids
    then (p, record { sessions_lost = 0; read_failed = 0; write_outcome_unknown = 0 })
    else (
      record p {
        console_sessions = update_where (λ s. in_ids s.id stale_ids) (lost now) p.console_sessions;
        console_statements =
            update_where (is_interrupted stale_ids) (interrupted now) p.console_statements;
      },
      record {
        sessions_lost = length stale_ids;
        read_failed = read_failed;
        write_outcome_unknown = length changed - read_failed;
      },
    )
