-- ===== src/Broker/Core/Epochs.antt =====
-- What an old epoch may do, app/broker/core.py: nothing.
use data_ops_studio_v.Base.{
  ℕ, ◌≡◌, ◌≢◌, refl, String, Bool, true, false, some, ◌||◌, ◌==◌, ltb, arith, inl, inr, raise, ◌⊎◌,
}
use data_ops_studio_v.Broker.Core.{
  World, BrokerConfig, BrokerStore, Tools, broker_error, value_error,
}
use data_ops_studio_v.Broker.Core.Op.{◌>>=◌, ◌>>◌, after, this, return, fail_if, fail_with}
use data_ops_studio_v.Broker.Core.Client.{
  Submission, require_epoch, check_arguments, submit, cancel, close,
}

module _ {S : Type 0} (api : BrokerStore S) (config : BrokerConfig) (tools : Tools) where
  -- A client with an epoch that is not the session's: `cancel` and `close` raise the error that names
  -- the current epoch, `submit` raises it or refuses the arguments, and none of them changes anything.
  pub stale_epoch_refused :
      (w : World S) (epoch : ℕ) (q : Submission) (id reason : String) (now : ℕ)
      → epoch ≢ w.runtime.session.epoch
      → q.epoch ≡ epoch
      → (cancel api config tools id epoch now w
          ≡ (w, raise (broker_error "stale_session_epoch" (some w.runtime.session.epoch))))
        × (close api config tools epoch reason now w
            ≡ (w, raise (broker_error "stale_session_epoch" (some w.runtime.session.epoch))))
        × ((submit api config tools q w
              ≡ (w, raise (broker_error "stale_session_epoch" (some w.runtime.session.epoch))))
            ⊎ (submit api config tools q w ≡ (w, raise value_error)))
  unfolding cancel close submit check_arguments require_epoch ◌>>◌ ◌>>=◌ after this fail_if
      fail_with return
  stale_epoch_refused w epoch q id reason now old same =
      let other : (epoch == w.runtime.session.epoch) ≡ false = ground arith in
      (
        rw other refl,
        rw other refl,
        submitted
            (tools.text_length q.client_request_id == 0
              || ltb 64 (tools.text_length q.client_request_id))
            (q.page_size == 0 || q.max_result_rows == 0) refl refl other,
      )
    where
      submitted :
          (a b : Bool)
          → (tools.text_length q.client_request_id == 0
              || ltb 64 (tools.text_length q.client_request_id))
            ≡ a
          → (q.page_size == 0 || q.max_result_rows == 0) ≡ b
          → (epoch == w.runtime.session.epoch) ≡ false
          → (submit api config tools q w
              ≡ (w, raise (broker_error "stale_session_epoch" (some w.runtime.session.epoch))))
            ⊎ (submit api config tools q w ≡ (w, raise value_error))
      submitted true b ea eb other = inr (rw ea refl)
      submitted false true ea eb other = inr (rw (ea, eb) refl)
      submitted false false ea eb other = inl (rw (ea, eb, same, other) refl)
