-- ===== src/Broker/Core.antt =====
-- app/broker/core.py: the owner of the interactive sessions. The state of one session, and the steps
-- that its threads, the clients and the timer take under the lock of the broker.
pub mod Op
pub mod Steady
pub mod SteadyLane
pub mod Changes
pub mod Client
pub mod Lane
pub mod Control
pub mod Calls
pub mod Accounting
pub mod Mailbox
pub mod Submitted
pub mod Interleaving
pub mod Invariant
pub mod Epochs
pub mod Attach
pub mod Sessions
pub mod Limits
pub mod Answers
pub mod Replay
pub mod Known
pub mod Remembered
pub mod Later
pub mod Drain
pub mod Batches
pub mod Drained
mod Samples
mod Tests
use data_ops_studio_v.Base.{
  ℕ, String, Bool, Option, none, some, List, Dict, Result, ◌>>◌, raise_if, min, ◌==◌,
}
use data_ops_studio_v.Broker.State.{ConsoleSessionState, ConsoleStatementState, InvalidTransition}
use data_ops_studio_v.Broker.Store.{
  ConsoleSession, ConsoleStatement, AttachRequest, StatementRequest, StoreError,
}

pub record SessionLimits : Type 0 where
  pub per_user : ℕ
  pub per_datasource : ℕ
  pub global_total : ℕ

-- The settings of the broker. Times are whole numbers of one unit, as are the clock's.
pub record BrokerConfig : Type 0 where
  pub limits : SessionLimits
  pub mailbox_size : ℕ
  pub idle_timeout_seconds : ℕ
  pub cancel_grace_seconds : ℕ
  pub timer_poll_seconds : ℕ
  pub spool_batch_size : ℕ

-- `_LaneCommand`.
pub data LaneCommand : Type 0 where
  execute : (statement_id : String) → LaneCommand
  close_lane : (close_reason : String) → LaneCommand

pub record StatementSpool : Type 0 where
  pub result_set_id : String
  pub page_size : ℕ
  pub max_result_rows : ℕ

-- `_SessionRuntime`. `taken` is the command that the lane has got from its mailbox and not yet taken
-- off `pending_count`, a local variable of `_lane_loop`.
pub record SessionRuntime : Type 0 where
  pub session : ConsoleSession
  pub mailbox : List LaneCommand
  pub statements : Dict ConsoleStatement
  pub requests : Dict String
  pub spools : Dict StatementSpool
  pub accepting : Bool
  pub pending_count : ℕ
  pub taken : Option LaneCommand
  pub current_statement_id : Option String
  pub statement_deadline : Option ℕ
  pub idle_deadline : Option ℕ
  pub cancel_in_flight : Bool
  pub cancel_statement_id : Option String
  pub cancel_reason : Option String
  pub cancel_control_done : Bool
  pub cancel_statement_done : Bool
  pub cancel_confirmed : Bool
  pub cancel_grace_deadline : Option ℕ
  pub cancel_destroy_sent : Bool
  pub close_reason_pending : Option String

-- What a step asks of the connection of its session and of the control lane.
pub data Request : Type 0 where
  request_soft_cancel clear_soft_cancel control_cancel control_destroy : Request

-- What a step raises: `BrokerError` with its code and `current_epoch`, and the rest.
pub data Fault : Type 0 where
  broker_error : (code : String) → (current_epoch : Option ℕ) → Fault
  store_error : StoreError → Fault
  illegal_session : InvalidTransition ConsoleSessionState → Fault
  illegal_statement : InvalidTransition ConsoleStatementState → Fault
  value_error key_error mailbox_diverged control_lane_missing resultstore_error not_running : Fault
  connection_error : Fault

-- `__post_init__` of the limits and of the settings, for natural numbers: none of them is negative.
unfoldable pub check_limits : SessionLimits → Result Fault (Unit {0})
check_limits limits =
    raise_if (min limits.per_user (min limits.per_datasource limits.global_total) == 0) value_error

unfoldable pub check_config : BrokerConfig → Result Fault (Unit {0})
check_config config = do
  raise_if (config.mailbox_size == 0) value_error
  raise_if (config.spool_batch_size == 0) value_error
  raise_if (config.idle_timeout_seconds == 0) value_error
  raise_if (config.timer_poll_seconds == 0) value_error

pub record SubmitReceipt : Type 0 where
  pub statement : ConsoleStatement
  pub deduplicated : Bool

pub record CancelReceipt : Type 0 where
  pub accepted_ : Bool
  pub statement_state : ConsoleStatementState

-- `BrokerStore`, as the broker uses it, on a store of any type.
pub record BrokerStore (S : Type 0) : Type 0 where
  pub attach_session :
      S
      → AttachRequest
      → (session_id broker_boot_id : String) (now : ℕ) → (reuse_session_id : Option String)
      → S × Result StoreError ConsoleSession
  pub update_session : S → ConsoleSession → S × Result StoreError (Unit {0})
  pub create_statement :
      S → ConsoleSession → StatementRequest → S × Result StoreError (ConsoleStatement × Bool)
  pub update_statement : S → ConsoleStatement → S × Result StoreError (Unit {0})
  pub add_event : S → String → String → ℕ → S × Result StoreError (Unit {0})

-- The parts that the broker only calls: the digest of a text, its length, `register` of the result
-- store, which may raise, and whether the connection factory makes a connection or raises.
pub record Tools : Type 0 where
  pub digest : String → String
  pub text_length : String → ℕ
  pub register : ConsoleStatement → (page_size max_result_rows : ℕ) → Option String
  pub connects : ConsoleSession → Bool

-- What a step of one session may change: the store, the session, and which session a statement
-- belongs to. `controls` are the datasources that have a control lane; `sent` grows.
pub record World (S : Type 0) : Type 0 where
  pub store : S
  pub runtime : SessionRuntime
  pub statement_sessions : Dict String
  pub controls : List String
  pub sent : List Request
