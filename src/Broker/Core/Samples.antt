-- ===== src/Broker/Core/Samples.antt =====
-- Settings, a session and its world, to run the steps of app/broker/core.py on.
use data_ops_studio_v.Base.{ℕ, String, true, false, none, some, List, [], ◌∷◌, ok}
use data_ops_studio_v.Broker.State.{ConsoleSessionState}
use data_ops_studio_v.Broker.Store.{ConsoleSession, AttachRequest, ServerCancelState}
use data_ops_studio_v.Broker.Store.Memory.{
  MemoryBrokerStore, attach_session, update_session, create_statement, update_statement, add_event,
}
use data_ops_studio_v.Broker.Core.Drain.{Surroundings, flushed}
use data_ops_studio_v.Broker.Core.{
  StatementSpool, World, SessionRuntime, BrokerConfig, BrokerStore, Tools,
}
use data_ops_studio_v.Broker.Core.Client.{Submission}
use data_ops_studio_v.Broker.Core.Calls.{SessionCall, submits, cancels, closes, gets, counts}
use data_ops_studio_v.Broker.Core.Attach.{SessionBroker, new_runtime}

abbrev pub memory_api : BrokerStore MemoryBrokerStore
memory_api = record {
  attach_session = attach_session;
  update_session = update_session;
  create_statement = λ m s r. let q = create_statement m s r in (q.0, ok q.1);
  update_statement = update_statement;
  add_event = λ m id event_type now. (add_event m id event_type now none none, ok tt);
}

abbrev pub small_config : BrokerConfig
small_config = record {
  limits = record { per_user = 2; per_datasource = 2; global_total = 3 };
  mailbox_size = 1;
  idle_timeout_seconds = 1800;
  cancel_grace_seconds = 5;
  timer_poll_seconds = 1;
  spool_batch_size = 2;
}

abbrev pub some_tools : Tools
some_tools = record {
  digest = λ sql. sql;
  text_length = λ text. 8;
  connects = λ session. true;
  register = λ statement page_size rows. some "result";
}

abbrev pub first_session : ConsoleSession
first_session = record {
  id = "session";
  console_id = "console";
  datasource_id = "db";
  owner_user_id = "ann";
  epoch = 1;
  state = ConsoleSessionState.idle;
  broker_boot_id = "boot";
  db_session_marker = some "pid";
  server_cancel = ServerCancelState.available;
  autocommit = true;
  created_at = 10;
  last_activity_at = 10;
  closed_at = none;
  close_reason = none;
  error_code = none;
}

abbrev pub idle_runtime : SessionRuntime
idle_runtime = record {
  session = first_session;
  mailbox = [];
  statements = [];
  requests = [];
  spools = [];
  accepting = true;
  pending_count = 0;
  taken = none;
  current_statement_id = none;
  statement_deadline = none;
  idle_deadline = some 1810;
  cancel_in_flight = false;
  cancel_statement_id = none;
  cancel_reason = none;
  cancel_control_done = false;
  cancel_statement_done = false;
  cancel_confirmed = false;
  cancel_grace_deadline = none;
  cancel_destroy_sent = false;
  close_reason_pending = none;
}

abbrev pub idle_world : World MemoryBrokerStore
idle_world = record {
  store = record {
    sessions = ("session", first_session) ∷ [];
    statements = [];
    events = [];
    epochs = ("console", 1) ∷ [];
  };
  runtime = idle_runtime;
  statement_sessions = [];
  controls = "db" ∷ [];
  sent = [];
}

abbrev pub submission : String → String → Submission
submission id request_id = record {
  epoch = 1;
  sql = "select 1";
  client_request_id = request_id;
  timeout_seconds = 600;
  page_size = 100;
  max_result_rows = 1000;
  statement_id = id;
  now = 20;
}

abbrev pub some_calls : List SessionCall
some_calls =
    submits (submission "s1" "r1")
    ∷ submits (submission "s2" "r2")
    ∷ gets
    ∷ submits (submission "s3" "r3")
    ∷ counts
    ∷ submits (submission "s4" "r4")
    ∷ cancels "s1" 1 30
    ∷ closes 1 "user" 40
    ∷ []

abbrev pub three_rows : StatementSpool
three_rows = record { result_set_id = "result"; page_size = 2; max_result_rows = 3 }

abbrev pub four_rows : List ℕ
four_rows = 1 ∷ 2 ∷ 3 ∷ 4 ∷ []

abbrev pub request_by_ann : AttachRequest
request_by_ann = record { console_id = "console"; datasource_id = "db"; owner_user_id = "ann" }

abbrev pub attached_session : ConsoleSession
attached_session = record first_session {
  state = ConsoleSessionState.connecting;
  db_session_marker = none;
  server_cancel = ServerCancelState.unknown;
}

abbrev pub empty_broker : SessionBroker MemoryBrokerStore
empty_broker = record {
  store = record { sessions = []; statements = []; events = []; epochs = [] };
  sessions = [];
  console_sessions = [];
  statement_sessions = [];
  controls = [];
  sent = [];
  is_running = true;
  boot_id = "boot";
}

abbrev pub broker_of_one : SessionBroker MemoryBrokerStore
broker_of_one = record empty_broker {
  store = record {
    sessions = ("session", attached_session) ∷ [];
    statements = [];
    events = [];
    epochs = ("console", 1) ∷ [];
  };
  sessions = ("session", new_runtime attached_session (some 1810)) ∷ [];
  console_sessions = ("console", "session") ∷ [];
}

-- A result store and a stream that raise nothing.
abbrev pub all_well : Surroundings
all_well = record { flush_outcome = λ n. flushed; mark_raises = false; stream_raises = false }
