-- ===== src/Broker/Core/SteadyLane.antt =====
-- The parts of the lane and of the control lane that touch neither the mailbox nor its count,
-- app/broker/core.py.
use data_ops_studio_v.Base.{ℕ, ◌≡◌, refl, String, Bool, Option, none, some, Bool-cases, inl, inr}
use data_ops_studio_v.Broker.Store.{ConsoleStatement}
use data_ops_studio_v.Broker.Core.{SessionRuntime, BrokerConfig, BrokerStore}
use data_ops_studio_v.Broker.Core.Op.{
  Op, change, Keeps, Keeps-bind, Keeps-then, Keeps-if, Keeps-this, Keeps-return, Keeps-send,
  Keeps-change, Keeps-at_key, Keeps-session_to, Keeps-statement_to,
}
use data_ops_studio_v.Broker.Core.Changes.{same_id}
use data_ops_studio_v.Broker.Core.Lane.{
  Ending, connect_failed_on_lane, connected_on_lane, start_statement, execute_statement,
  stream_statement, note_ending, finish_statement, closing_on_lane, closed_on_lane, free_lane,
}
use data_ops_studio_v.Broker.Core.Control.{
  on_control_cancel_done, on_control_destroy_done, abort_statement, timeout_statement,
  escalate_cancel,
}
use data_ops_studio_v.Broker.Core.Steady.{
  IsSteady, Remembers, with_statement-Remembers, changed, Keeps-save_session, Keeps-record_event,
  Keeps-save_statement, Keeps-put_statement, Keeps-move_session, Keeps-set_statement_state,
  Keeps-lose_session_locked, Keeps-back_to_idle, Keeps-dispatch, Keeps-begin_cancel_locked,
  Keeps-settle_cancel_fence_locked,
}

-- A step that looks at an option first.
pub Keeps-option :
    {S A B : Type 0} {P : SessionRuntime → Type 0} (none_case : Op S B) (some_case : A → Op S B)
    (o : Option A)
    → Keeps P none_case
    → ((a : A) → Keeps P (some_case a))
    → Keeps P (elim o [ none ↦ none_case | some a ↦ some_case a ])
Keeps-option n s none x y = x
Keeps-option n s (some a) x y = y a

module _ {S : Type 0} (api : BrokerStore S) (config : BrokerConfig) (P : SessionRuntime → Type 0)
    (given : IsSteady P) where
  touch :
      (f : SessionRuntime → SessionRuntime)
      → ((r : SessionRuntime) → (f r).mailbox ≡ r.mailbox)
      → ((r : SessionRuntime) → (f r).pending_count ≡ r.pending_count)
      → ((r : SessionRuntime) → (f r).taken ≡ r.taken)
      → ((r : SessionRuntime) → (f r).accepting ≡ r.accepting)
      → ((r : SessionRuntime) → Remembers r (f r))
      → Keeps P (change {S = S} f)
  touch = changed api config P given

  pub Keeps-connect_failed :
      (code : String) (now : ℕ) → Keeps P (connect_failed_on_lane api config code now)
  unfolding connect_failed_on_lane
  Keeps-connect_failed code now =
      Keeps-then (Keeps-change _ given.stops) (Keeps-move_session api config P given _ _)

  pub Keeps-connected :
      (marker : Option String) (now : ℕ) → Keeps P (connected_on_lane api config marker now)
  unfolding connected_on_lane
  Keeps-connected marker now = Keeps-bind Keeps-this (λ r.
      Keeps-bind (Keeps-session_to _ _) (λ state.
        Keeps-then
          (touch _ (λ r. refl) (λ r. refl) (λ r. refl) (λ r. refl) (λ r. (refl, λ id h. h)))
          (Keeps-then
            (touch _ (λ r. refl) (λ r. refl) (λ r. refl) (λ r. refl) (λ r. (refl, λ id h. h)))
            (Keeps-save_session api config P given))))

  Keeps-start_statement :
      (statement : ConsoleStatement) (now : ℕ) → Keeps P (start_statement api config statement now)
  unfolding start_statement
  Keeps-start_statement statement now = Keeps-then (Keeps-send _) (
      Keeps-then (touch _ (λ r. refl) (λ r. refl) (λ r. refl) (λ r. refl) (λ r. (refl, λ id h. h)))
        (Keeps-bind Keeps-this (λ r. Keeps-bind (Keeps-session_to _ _) (λ state.
          Keeps-then
            (touch _ (λ r. refl) (λ r. refl) (λ r. refl) (λ r. refl) (λ r. (refl, λ id h. h)))
            (Keeps-bind (Keeps-statement_to _ _) (λ state'.
              Keeps-then
                (touch _ (λ r. refl) (λ r. refl) (λ r. refl) (λ r. refl)
                  (with_statement-Remembers _))
                (Keeps-then (Keeps-save_session api config P given) (
                  Keeps-then (Keeps-save_statement api config P given _)
                    (Keeps-record_event api config P given _ _ _)))))))))

  pub Keeps-execute_statement :
      (id : String) (now : ℕ) → Keeps P (execute_statement api config id now)
  unfolding execute_statement
  Keeps-execute_statement id now = Keeps-bind Keeps-this (λ r. Keeps-if _ (Keeps-return _) (
      Keeps-bind (Keeps-at_key _)
        (λ statement. Keeps-if _ (Keeps-return _) (Keeps-start_statement statement now))))

  pub Keeps-stream_statement : (id : String) → Keeps P (stream_statement api config id)
  unfolding stream_statement
  Keeps-stream_statement id = Keeps-bind Keeps-this (λ r. Keeps-bind (Keeps-at_key _) (λ statement.
      Keeps-if _
        (Keeps-bind (Keeps-statement_to _ _) (λ state. Keeps-put_statement api config P given _))
        (Keeps-return _)))

  pub Keeps-note_ending : (e : Ending) → Keeps P (note_ending api config e)
  unfolding note_ending
  Keeps-note_ending e =
      Keeps-if _ (touch _ (λ r. refl) (λ r. refl) (λ r. refl) (λ r. refl) (λ r. (refl, λ id h. h)))
        (Keeps-return _)

  Keeps-free_lane : (id : String) (r : SessionRuntime) → P r → P (free_lane id r)
  Keeps-free_lane id r h = elim (Bool-cases (same_id r.current_statement_id id)) [
    | inl hit ↦ rw hit (given.steady r _ refl refl refl refl (refl, λ id h. h) h)
    | inr miss ↦ rw miss h
  ]

  pub Keeps-finish_statement :
      (id : String) (e : Ending) (reason code summary : Option String) (now : ℕ)
      → Keeps P (finish_statement api config id e reason code summary now)
  unfolding finish_statement
  Keeps-finish_statement id e reason code summary now = Keeps-bind Keeps-this (λ r.
      Keeps-bind (Keeps-at_key _) (λ current.
        Keeps-then
          (Keeps-if _ (Keeps-return _) (
            Keeps-bind (Keeps-set_statement_state api config P given _ _ _ _ _ _)
              (λ updated. Keeps-record_event api config P given _ _ _)))
          (Keeps-then
            (Keeps-if _ (Keeps-lose_session_locked api config P given _ _) (Keeps-return _))
            (Keeps-then (Keeps-change _ (Keeps-free_lane id)) (
              Keeps-then (Keeps-settle_cancel_fence_locked api config P given _ _) (
                Keeps-bind Keeps-this
                  (λ r. Keeps-if _ (Keeps-back_to_idle api config P given _) (Keeps-return _))))))))

  pub Keeps-closing : (now : ℕ) → Keeps P (closing_on_lane api config now)
  unfolding closing_on_lane
  Keeps-closing now =
      Keeps-bind Keeps-this
        (λ r. Keeps-if _ (Keeps-return _) (Keeps-move_session api config P given _ _))

  pub Keeps-closed : (reason : String) (now : ℕ) → Keeps P (closed_on_lane api config reason now)
  unfolding closed_on_lane
  Keeps-closed reason now = Keeps-bind Keeps-this (λ r. Keeps-bind (Keeps-session_to _ _) (λ state.
      Keeps-then (touch _ (λ r. refl) (λ r. refl) (λ r. refl) (λ r. refl) (λ r. (refl, λ id h. h)))
        (Keeps-then
          (touch _ (λ r. refl) (λ r. refl) (λ r. refl) (λ r. refl) (λ r. (refl, λ id h. h)))
          (Keeps-save_session api config P given))))

  pub Keeps-cancel_done :
      (failed : Bool) (now : ℕ) → Keeps P (on_control_cancel_done api config failed now)
  unfolding on_control_cancel_done
  Keeps-cancel_done failed now = Keeps-bind Keeps-this (λ r.
      Keeps-option _ _ r.cancel_statement_id (Keeps-return _) (λ id.
        Keeps-bind (Keeps-at_key _) (λ statement.
          Keeps-then
            (touch _ (λ r. refl) (λ r. refl) (λ r. refl) (λ r. refl) (λ r. (refl, λ id h. h)))
            (Keeps-then (Keeps-record_event api config P given _ _ _)
              (Keeps-settle_cancel_fence_locked api config P given _ _)))))

  pub Keeps-destroy_done :
      (failed : Bool) (now : ℕ) → Keeps P (on_control_destroy_done api config failed now)
  unfolding on_control_destroy_done abort_statement
  Keeps-destroy_done failed now = Keeps-bind Keeps-this (λ r.
      Keeps-option _ _ r.cancel_statement_id (Keeps-return _) (λ id.
        Keeps-bind (Keeps-at_key _) (λ statement.
          Keeps-then (Keeps-record_event api config P given _ _ _) (
            Keeps-then
              (Keeps-if _ (Keeps-return _) (
                Keeps-bind (Keeps-set_statement_state api config P given _ _ _ _ _ _)
                  (λ u. Keeps-return _)))
              (Keeps-then (Keeps-lose_session_locked api config P given _ _) (
                touch _ (λ r. refl) (λ r. refl) (λ r. refl) (λ r. refl)
                  (λ r. (refl, λ id h. h))))))))

  pub Keeps-timeout_statement : (now : ℕ) → Keeps P (timeout_statement api config now)
  unfolding timeout_statement
  Keeps-timeout_statement now = Keeps-bind Keeps-this (λ r.
      Keeps-option _ _ r.current_statement_id (Keeps-return _) (λ id.
        Keeps-if _
          (Keeps-bind Keeps-this (λ r.
            Keeps-bind (Keeps-at_key _)
              (λ statement. Keeps-begin_cancel_locked api config P given _ _ _)))
          (Keeps-return _)))

  pub Keeps-escalate_cancel : (now : ℕ) → Keeps P (escalate_cancel api config now)
  unfolding escalate_cancel
  Keeps-escalate_cancel now = Keeps-bind Keeps-this (λ r.
      Keeps-if _
        (Keeps-then
          (touch _ (λ r. refl) (λ r. refl) (λ r. refl) (λ r. refl) (λ r. (refl, λ id h. h)))
          (Keeps-dispatch api config P given _ _ (Keeps-return _)))
        (Keeps-return _))
