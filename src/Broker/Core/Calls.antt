-- ===== src/Broker/Core/Calls.antt =====
-- The steps of one session as a type: an interleaving of its clients, its lane, the control lane and
-- the timer is a list of calls. Each call is a part of app/broker/core.py that runs under the lock,
-- or the lane's `mailbox.get()`; a call may come in any order, also where the threads would wait.
use data_ops_studio_v.Base.{ℕ, String, Bool, true, Option, List, [], ◌∷◌}
use data_ops_studio_v.Broker.Core.{World, BrokerConfig, BrokerStore, Tools}
use data_ops_studio_v.Broker.Core.Op.{Op, ◌>>=◌, return}
use data_ops_studio_v.Broker.Core.Changes.{queue_close_locked}
use data_ops_studio_v.Broker.Core.Client.{Submission, submit, cancel, close}
use data_ops_studio_v.Broker.Core.Lane.{
  Ending, connect_failed_on_lane, connected_on_lane, lane_get, lane_count, execute_statement,
  stream_statement, note_ending, finish_statement, take_pending_close, closing_on_lane,
  closed_on_lane,
}
use data_ops_studio_v.Broker.Core.Control.{
  on_control_cancel_done, on_control_destroy_done, run_timers,
}

pub data SessionCall : Type 0 where
  submits : Submission → SessionCall
  cancels : (statement_id : String) → (epoch now : ℕ) → SessionCall
  closes : (epoch : ℕ) → (reason : String) → (now : ℕ) → SessionCall
  shuts_down : (now : ℕ) → SessionCall
  cannot_connect : (error_code : String) → (now : ℕ) → SessionCall
  connects : (marker : Option String) → (now : ℕ) → SessionCall
  gets counts drains : SessionCall
  executes_statement : (statement_id : String) → (now : ℕ) → SessionCall
  streams : (statement_id : String) → SessionCall
  notes : Ending → SessionCall
  finishes :
      (statement_id : String)
      → Ending
      → (cancel_reason error_code error_summary : Option String) → (now : ℕ) → SessionCall
  begins_closing : (now : ℕ) → SessionCall
  ends_closing : (reason : String) → (now : ℕ) → SessionCall
  cancel_done destroy_done : (failed : Bool) → (now : ℕ) → SessionCall
  timer : (now : ℕ) → SessionCall

abbrev pub ignore : {S A : Type 0} → Op S A → Op S (Unit {0})
ignore m = m >>= λ _. return tt

module _ {S : Type 0} (api : BrokerStore S) (config : BrokerConfig) (tools : Tools) where
  unfoldable pub call : SessionCall → Op S (Unit {0})
  call (submits q) = ignore (submit api config tools q)
  call (cancels id epoch now) = ignore (cancel api config tools id epoch now)
  call (closes epoch reason now) = close api config tools epoch reason now
  call (shuts_down now) = queue_close_locked api config "shutdown" true now
  call (cannot_connect code now) = connect_failed_on_lane api config code now
  call (connects marker now) = connected_on_lane api config marker now
  call gets = lane_get api config
  call counts = lane_count api config
  call drains = ignore (take_pending_close api config)
  call (executes_statement id now) = execute_statement api config id now
  call (streams id) = stream_statement api config id
  call (notes e) = note_ending api config e
  call (finishes id e reason code summary now) =
      finish_statement api config id e reason code summary now
  call (begins_closing now) = closing_on_lane api config now
  call (ends_closing reason now) = closed_on_lane api config reason now
  call (cancel_done failed now) = on_control_cancel_done api config failed now
  call (destroy_done failed now) = on_control_destroy_done api config failed now
  call (timer now) = run_timers api config now

  -- A run of calls; what a call raises, its caller gets.
  unfoldable pub run : List SessionCall → World S → World S
  run [] w = w
  run (c ∷ cs) w = run cs (call c w).0
