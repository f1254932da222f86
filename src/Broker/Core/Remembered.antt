-- ===== src/Broker/Core/Remembered.antt =====
-- The steps of a session that keep what it remembers of a request, app/broker/core.py, `submit` aside.
use data_ops_studio_v.Base.{ℕ, String, Bool, true, Option, none, some, List, [], ◌∷◌}
use data_ops_studio_v.Broker.Core.{SessionRuntime, BrokerConfig, BrokerStore, Tools, LaneCommand}
use data_ops_studio_v.Broker.Core.Op.{
  ◌>>◌, return, change, Keeps, Keeps-bind, Keeps-then, Keeps-if, Keeps-this, Keeps-return,
  Keeps-fail_with, Keeps-change, Keeps-at_key,
}
use data_ops_studio_v.Broker.Core.Changes.{queue_close, queued_close, queue_close_locked}
use data_ops_studio_v.Broker.Core.Client.{cancel, cancel_accepted, cancel_current, close}
use data_ops_studio_v.Broker.Core.Lane.{
  lane_get, get_if_free, got_command, lane_count, take_pending_close,
}
use data_ops_studio_v.Broker.Core.Control.{run_timers, close_idle}
use data_ops_studio_v.Broker.Core.Steady.{
  IsSteady, Keeps-record_event, Keeps-set_statement_state, Keeps-begin_cancel_locked,
  Keeps-cancel_running, Keeps-cancel_queued_locked,
}
use data_ops_studio_v.Broker.Core.SteadyLane.{Keeps-timeout_statement, Keeps-escalate_cancel}
use data_ops_studio_v.Broker.Core.Known.{Knows, IsSteady-Knows, Keeps-require_epoch}

module _ {S : Type 0} (api : BrokerStore S) (config : BrokerConfig) (tools : Tools)
    (request_id statement_id : String) where
  abbrev K : SessionRuntime → Type 0
  K = Knows request_id statement_id

  steady : IsSteady K
  steady = IsSteady-Knows request_id statement_id

  pub Keeps-cancel : (id : String) (epoch now : ℕ) → Keeps K (cancel api config tools id epoch now)
  unfolding cancel cancel_accepted cancel_current
  Keeps-cancel id epoch now =
      Keeps-then (Keeps-require_epoch api config tools request_id statement_id K epoch) (
        Keeps-bind Keeps-this (λ r. Keeps-bind (Keeps-at_key _) (λ statement.
          Keeps-if _
            (Keeps-bind (Keeps-set_statement_state api config _ steady _ _ _ _ _ _) (λ updated.
              Keeps-then (Keeps-record_event api config _ steady _ _ _) (Keeps-return _)))
            (Keeps-if _
              (Keeps-then (Keeps-begin_cancel_locked api config _ steady _ _ _)
                (Keeps-bind Keeps-this (λ r. Keeps-bind (Keeps-at_key _) (λ s. Keeps-return _))))
              (Keeps-if _ (Keeps-return _) (Keeps-fail_with _ (λ e. cc)))))))

  Knows-queued_close :
      (reason : String) (r : SessionRuntime) (o : Option (List LaneCommand))
      → K r
      → K (queued_close reason r o)
  unfolding queued_close
  Knows-queued_close reason r none h = h
  Knows-queued_close reason r (some mailbox) h = h

  pub Keeps-queue_close_locked :
      (reason : String) (b : Bool) (now : ℕ) → Keeps K (queue_close_locked api config reason b now)
  unfolding queue_close_locked queue_close
  Keeps-queue_close_locked reason b now = Keeps-bind Keeps-this (λ r. Keeps-if _ (Keeps-return _) (
      Keeps-then (Keeps-change _ (λ r h. h)) (
        Keeps-then (Keeps-if _ (Keeps-cancel_running api config K steady _ _) (Keeps-return _)) (
          Keeps-then
            (Keeps-if _ (Keeps-cancel_queued_locked api config K steady _ _) (Keeps-return _))
            (Keeps-change _ (λ r h. Knows-queued_close reason r _ h))))))

  pub Keeps-close :
      (epoch : ℕ) (reason : String) (now : ℕ) → Keeps K (close api config tools epoch reason now)
  unfolding close
  Keeps-close epoch reason now =
      Keeps-then (Keeps-require_epoch api config tools request_id statement_id K epoch)
        (Keeps-queue_close_locked reason true now)

  Knows-got_command : (r : SessionRuntime) (m : List LaneCommand) → K r → K (got_command r m)
  unfolding got_command
  Knows-got_command r [] h = h
  Knows-got_command r (c ∷ rest) h = h

  Keeps-get_if_free : (taken : Option LaneCommand) → Keeps K (get_if_free api config taken)
  unfolding get_if_free
  Keeps-get_if_free none = Keeps-change _ (λ r h. Knows-got_command r r.mailbox h)
  Keeps-get_if_free (some c) = Keeps-return _

  pub Keeps-lane_get : Keeps K (lane_get api config)
  unfolding lane_get
  Keeps-lane_get = Keeps-bind Keeps-this (λ r. Keeps-get_if_free r.taken)

  pub Keeps-lane_count : Keeps K (lane_count api config)
  unfolding lane_count
  Keeps-lane_count =
      Keeps-bind Keeps-this (λ r. Keeps-if _ (Keeps-change _ (λ r h. h)) (Keeps-return _))

  pub Keeps-take_pending_close : Keeps K (take_pending_close api config)
  unfolding take_pending_close
  Keeps-take_pending_close = Keeps-bind Keeps-this (λ r. drained r r.mailbox)
    where
      drained :
          (r : SessionRuntime) (m : List LaneCommand)
          → Keeps {S = S} K (elim m [
            | _ ∷ _ ↦ return none
            | [] ↦
                change (λ r. record r { close_reason_pending = none })
                >> return r.close_reason_pending
          ])
      drained r [] = Keeps-then (Keeps-change _ (λ r h. h)) (Keeps-return _)
      drained r (c ∷ cs) = Keeps-return _

  pub Keeps-run_timers : (now : ℕ) → Keeps K (run_timers api config now)
  unfolding run_timers close_idle
  Keeps-run_timers now = Keeps-then (Keeps-timeout_statement api config K steady now) (
      Keeps-then (Keeps-escalate_cancel api config K steady now)
        (Keeps-bind Keeps-this (λ r. Keeps-if _ (Keeps-queue_close_locked _ _ _) (Keeps-return _))))
