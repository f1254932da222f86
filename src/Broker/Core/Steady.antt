-- ===== src/Broker/Core/Steady.antt =====
-- The helpers of app/broker/core.py touch neither the mailbox nor its count: whatever depends only on
-- these they keep.
use data_ops_studio_v.Base.{
  ℕ, ◌≡◌, refl, String, Bool, true, false, ap, ◌∙◌, is_some, lookup, lookup-insert, Option, none,
  some, List, [], ◌∷◌, if◌then◌else◌, str_eq, any,
}
use data_ops_studio_v.Broker.State.{ConsoleSessionState, ConsoleStatementState}
use data_ops_studio_v.Broker.Store.{ConsoleSession, ConsoleStatement}
use data_ops_studio_v.Broker.Core.{World, SessionRuntime, BrokerConfig, BrokerStore, Request}
use data_ops_studio_v.Broker.Core.Op.{
  send, Op, change, Keeps, Keeps-bind, Keeps-then, Keeps-if, Keeps-this, Keeps-return,
  Keeps-fail_with, Keeps-send, Keeps-change, Keeps-in_store, Keeps-at_key, Keeps-session_to,
  Keeps-statement_to,
}
use data_ops_studio_v.Broker.Core.Changes.{
  dispatch, save_session, save_statement, put_statement, record_event, set_statement_state,
  move_session, lose_session_locked, begin_cancel_locked, settle_cancel_fence_locked, back_to_idle,
  cancel_each, cancel_queued_locked, cancel_running, with_statement,
}

-- The requests are the same, and no statement is gone.
abbrev pub Remembers : SessionRuntime → SessionRuntime → Type 0
Remembers r r' =
    (r'.requests ≡ r.requests)
    × ((id : String)
        → is_some (lookup id r.statements) ≡ true
        → is_some (lookup id r'.statements) ≡ true)

pub with_statement-Remembers :
    (s : ConsoleStatement) (r : SessionRuntime) → Remembers r (with_statement s r)
with_statement-Remembers s r =
    (refl, λ id h. ap is_some (lookup-insert s.id id s r.statements) ∙ either id (str_eq s.id id) h)
  where
    either :
        (id : String) (b : Bool)
        → is_some (lookup id r.statements) ≡ true
        → is_some (if b then some s else lookup id r.statements) ≡ true
    either id true h = refl
    either id false h = h

-- A property of the mailbox, its count, the command that the lane holds and `accepting`, which
-- outlives that the session stops accepting.
pub record IsSteady (P : SessionRuntime → Type 0) : Type 0 where
  pub steady :
      (r r' : SessionRuntime)
      → r'.mailbox ≡ r.mailbox
      → r'.pending_count ≡ r.pending_count
      → r'.taken ≡ r.taken
      → r'.accepting ≡ r.accepting
      → Remembers r r'
      → P r
      → P r'
  pub stops : (r : SessionRuntime) → P r → P (record r { accepting = false })

module _ {S : Type 0} (api : BrokerStore S) (config : BrokerConfig) (P : SessionRuntime → Type 0)
    (given : IsSteady P) where
  pub changed :
      (f : SessionRuntime → SessionRuntime)
      → ((r : SessionRuntime) → (f r).mailbox ≡ r.mailbox)
      → ((r : SessionRuntime) → (f r).pending_count ≡ r.pending_count)
      → ((r : SessionRuntime) → (f r).taken ≡ r.taken)
      → ((r : SessionRuntime) → (f r).accepting ≡ r.accepting)
      → ((r : SessionRuntime) → Remembers r (f r))
      → Keeps P (change {S = S} f)
  changed f a b c d e = Keeps-change _ (λ r h. given.steady r (f r) (a r) (b r) (c r) (d r) (e r) h)

  pub Keeps-save_session : Keeps P (save_session api config)
  unfolding save_session
  Keeps-save_session = Keeps-bind Keeps-this (λ r. (Keeps-in_store _))

  pub Keeps-record_event :
      (statement : ConsoleStatement) (event_type : String) (now : ℕ)
      → Keeps P (record_event api config statement event_type now)
  unfolding record_event
  Keeps-record_event _ _ _ = (Keeps-in_store _)

  pub Keeps-save_statement :
      (statement : ConsoleStatement) → Keeps P (save_statement api config statement)
  unfolding save_statement
  Keeps-save_statement _ = (Keeps-in_store _)

  pub Keeps-put_statement :
      (statement : ConsoleStatement) → Keeps P (put_statement api config statement)
  unfolding put_statement
  Keeps-put_statement _ =
      Keeps-then
        (changed _ (λ r. refl) (λ r. refl) (λ r. refl) (λ r. refl) (with_statement-Remembers _))
        (Keeps-save_statement _)

  pub Keeps-move_session :
      (target : ConsoleSessionState) (f : ConsoleSession → ConsoleSession)
      → Keeps P (move_session api config target f)
  unfolding move_session
  Keeps-move_session _ _ = Keeps-bind Keeps-this (λ r. Keeps-bind (Keeps-session_to _ _) (λ state.
      Keeps-then
        (changed _ (λ r. refl) (λ r. refl) (λ r. refl) (λ r. refl) (λ r. (refl, λ id h. h)))
        Keeps-save_session))

  pub Keeps-set_statement_state :
      (statement : ConsoleStatement) (target : ConsoleStatementState) (now : ℕ)
      (cancel : Option Bool) (code summary : Option String)
      → Keeps P (set_statement_state api config statement target now cancel code summary)
  unfolding set_statement_state
  Keeps-set_statement_state _ _ _ _ _ _ =
      Keeps-bind (Keeps-statement_to _ _)
        (λ state. Keeps-then (Keeps-put_statement _) (Keeps-return _))

  pub Keeps-lose_session_locked :
      (reason : String) (now : ℕ) → Keeps P (lose_session_locked api config reason now)
  unfolding lose_session_locked
  Keeps-lose_session_locked _ _ = Keeps-bind Keeps-this (λ r. Keeps-if _ (Keeps-return _) (
      Keeps-then
        (Keeps-change _ (λ r h.
          given.steady (record r { accepting = false }) _ refl refl refl refl (refl, λ id h. h)
            (given.stops r h)))
        (Keeps-bind (Keeps-session_to _ _) (λ state.
          Keeps-then
            (changed _ (λ r. refl) (λ r. refl) (λ r. refl) (λ r. refl) (λ r. (refl, λ id h. h)))
            Keeps-save_session))))

  pub Keeps-back_to_idle : (now : ℕ) → Keeps P (back_to_idle api config now)
  unfolding back_to_idle
  Keeps-back_to_idle _ = Keeps-bind Keeps-this (λ r. Keeps-bind (Keeps-session_to _ _) (λ state.
      Keeps-then
        (changed _ (λ r. refl) (λ r. refl) (λ r. refl) (λ r. refl) (λ r. (refl, λ id h. h)))
        (Keeps-then
          (changed _ (λ r. refl) (λ r. refl) (λ r. refl) (λ r. refl) (λ r. (refl, λ id h. h)))
          Keeps-save_session)))

  pub Keeps-dispatch :
      (q : Request) (e : Op S (Unit {0})) → Keeps P e → Keeps P (dispatch api config q e)
  unfolding dispatch
  Keeps-dispatch q e missing = record {
    keeps = λ w h. (either w).keeps w h;
    agrees = λ w h. (either w).agrees w h;
  }
    where
      either :
          (w : World S)
          → Keeps P (if any (str_eq w.runtime.session.datasource_id) w.controls then send q else e)
      either w =
          Keeps-if (any (str_eq w.runtime.session.datasource_id) w.controls) (Keeps-send q) missing

  pub Keeps-begin_cancel_locked :
      (statement : ConsoleStatement) (reason : String) (now : ℕ)
      → Keeps P (begin_cancel_locked api config statement reason now)
  unfolding begin_cancel_locked
  Keeps-begin_cancel_locked _ _ _ = Keeps-bind Keeps-this (λ r. Keeps-if _ (Keeps-return _) (
      Keeps-then
        (changed _ (λ r. refl) (λ r. refl) (λ r. refl) (λ r. refl) (λ r. (refl, λ id h. h)))
        (Keeps-then (Keeps-send _) (
          Keeps-then (Keeps-put_statement _) (
            Keeps-then (Keeps-if _ (Keeps-move_session _ _) (Keeps-return _)) (
              Keeps-then (Keeps-record_event _ _ _)
                (Keeps-dispatch _ _ (Keeps-fail_with _ (λ e. cc)))))))))

  pub Keeps-settle_cancel_fence_locked :
      (id : String) (now : ℕ) → Keeps P (settle_cancel_fence_locked api config id now)
  unfolding settle_cancel_fence_locked
  Keeps-settle_cancel_fence_locked _ _ = Keeps-bind Keeps-this (λ r. Keeps-if _ (Keeps-return _) (
      Keeps-bind (Keeps-at_key _) (λ statement.
        Keeps-then
          (changed _ (λ r. refl) (λ r. refl) (λ r. refl) (λ r. refl) (λ r. (refl, λ id h. h)))
          (Keeps-if _ (Keeps-return _) (
            Keeps-then
              (changed _ (λ r. refl) (λ r. refl) (λ r. refl) (λ r. refl) (λ r. (refl, λ id h. h)))
              (Keeps-then (Keeps-send _) (Keeps-if _ (Keeps-back_to_idle _) (Keeps-return _))))))))

  Keeps-cancel_each :
      (event_type : String) (now : ℕ) (ss : List ConsoleStatement)
      → Keeps P (cancel_each api config event_type now ss)
  unfolding cancel_each
  Keeps-cancel_each _ _ [] = (Keeps-return _)
  Keeps-cancel_each _ _ (s ∷ rest) =
      Keeps-bind (Keeps-set_statement_state _ _ _ _ _ _)
        (λ updated. Keeps-then (Keeps-record_event _ _ _) (Keeps-cancel_each _ _ rest))

  pub Keeps-cancel_queued_locked :
      (event_type : String) (now : ℕ) → Keeps P (cancel_queued_locked api config event_type now)
  unfolding cancel_queued_locked
  Keeps-cancel_queued_locked _ _ = Keeps-bind Keeps-this (λ r. Keeps-cancel_each _ _ _)

  pub Keeps-cancel_running :
      (now : ℕ) (current : Option String) → Keeps P (cancel_running api config now current)
  unfolding cancel_running
  Keeps-cancel_running _ none = (Keeps-return _)
  Keeps-cancel_running _ (some id) = Keeps-bind Keeps-this (λ r.
      Keeps-bind (Keeps-at_key _)
        (λ statement. Keeps-if _ (Keeps-begin_cancel_locked _ _ _) (Keeps-return _)))
