-- ===== src/Broker/Core/Invariant.antt =====
-- Every session of the broker keeps its account, from its attach on, app/broker/core.py.
use data_ops_studio_v.Base.{
  ℕ, ◌≡◌, refl, String, true, false, Option, none, some, List, [], ◌∷◌, Dict, lookup, insert,
  str_eq, if◌then◌else◌, All, arith, Bool-cases, inl, inr, Result, raise, ok,
}
use data_ops_studio_v.Broker.State.{is_active}
use data_ops_studio_v.Broker.Store.{ConsoleSession, AttachRequest, StoreError, ServerCancelState}
use data_ops_studio_v.Broker.Core.{
  World, SessionRuntime, BrokerConfig, BrokerStore, Tools, Fault, broker_error, not_running,
}
use data_ops_studio_v.Broker.Core.Op.{
  Op, Keeps, Keeps-bind, Keeps-then, Keeps-if, Keeps-this, Keeps-return,
}
use data_ops_studio_v.Broker.Core.Steady.{changed, Keeps-save_session}
use data_ops_studio_v.Broker.Core.Changes.{idle_deadline_at}
use data_ops_studio_v.Broker.Core.Accounting.{executes, IsAccounted, IsSteady-IsAccounted}
use data_ops_studio_v.Broker.Core.Attach.{
  SessionBroker, new_runtime, if_active, session_named, existing_session, reattached, attached_new,
  active_sessions, limit_reached, attach_found, attach_serial, attach_ready,
}
use data_ops_studio_v.Broker.Core.Sessions.{
  put_back, on_runtime, on_session, cancel_in, cancel_on, goes_on, run_timers_on, run_timers_once,
}
use data_ops_studio_v.Broker.Core.Calls.{SessionCall, call}
use data_ops_studio_v.Broker.Core.Submitted.{Keeps-cancel}
use data_ops_studio_v.Broker.Core.Interleaving.{Keeps-call, Keeps-run_timers}

All-insert :
    {V : Type 0} (P : V → Type 0) (k : String) (v : V) (d : Dict V)
    → All (λ e. P e.1) d
    → P v
    → All (λ e. P e.1) (insert k v d)
unfolding insert
All-insert P k v [] h p = (p, tt)
All-insert P k v ((j, w) ∷ d) h p = elim (Bool-cases (str_eq j k)) [
  | inl same ↦ rw same (p, h.1)
  | inr other ↦ rw other (h.0, All-insert P k v d h.1 p)
]

All-lookup :
    {V : Type 0} (P : V → Type 0) (k : String) (v : V) (d : Dict V)
    → All (λ e. P e.1) d
    → lookup k d ≡ some v
    → P v
unfolding lookup
All-lookup P k v [] h e = absurd (let no : none ≡ some v = e in cc)
All-lookup P k v ((j, w) ∷ d) h e = elim (Bool-cases (str_eq j k)) [
  | inl same ↦ let here : some w ≡ some v = rw same at e in let eq : w ≡ v = cc in rw (← eq) h.0
  | inr other ↦ All-lookup P k v d h.1 (rw other at e)
]

-- What happens to the broker: a client attaches, the control lane of
-- its datasource is ready, a session takes one of its steps, or the timer runs.
pub data BrokerCall : Type 0 where
  attaches : AttachRequest → (session_id : String) → (now : ℕ) → BrokerCall
  steps : (session_id : String) → SessionCall → BrokerCall
  cancels_on : (statement_id : String) → (epoch now : ℕ) → BrokerCall
  readies : (session_id : String) → ServerCancelState → BrokerCall
  ticks : (now : ℕ) → BrokerCall

module _ {S : Type 0} (api : BrokerStore S) (config : BrokerConfig) (tools : Tools) where
  unfoldable pub broker_call : BrokerCall → SessionBroker S → SessionBroker S
  broker_call (attaches request id now) b = (attach_serial api config tools b request id now).0
  broker_call (steps id c) b = (on_session api config tools b id (call api config tools c)).0
  broker_call (cancels_on id epoch now) b = (cancel_on api config tools b id epoch now).0
  broker_call (readies id support) b =
      (on_session api config tools b id (attach_ready api config tools support)).0
  broker_call (ticks now) b = (run_timers_once api config tools b now).0

  unfoldable pub broker_run : List BrokerCall → SessionBroker S → SessionBroker S
  broker_run [] b = b
  broker_run (c ∷ cs) b = broker_run cs (broker_call c b)

  -- The account of every session is right.
  abbrev pub AllAccounted : SessionBroker S → Type 0
  AllAccounted b = All (λ e. IsAccounted config.mailbox_size e.1) b.sessions

  new_runtime-IsAccounted :
      (session : ConsoleSession) (deadline : Option ℕ)
      → IsAccounted config.mailbox_size (new_runtime session deadline)
  unfolding new_runtime executes
  new_runtime-IsAccounted session deadline = record {
    counted = refl;
    bounded = omega arith;
    fits = omega arith;
    only_statements = λ e. refl;
  }

  All-put_back :
      {A : Type 0} (b : SessionBroker S) (id : String) (q : World S × Result Fault A)
      → AllAccounted b
      → IsAccounted config.mailbox_size q.0.runtime
      → AllAccounted (put_back api config tools b id q).0
  unfolding put_back
  All-put_back b id (w, r) h p =
      All-insert (IsAccounted config.mailbox_size) id w.runtime b.sessions h p

  All-on_runtime :
      {A : Type 0} (b : SessionBroker S) (id : String) (m : Op S A) (o : Option SessionRuntime)
      → AllAccounted b
      → Keeps (IsAccounted config.mailbox_size) m
      → lookup id b.sessions ≡ o
      → AllAccounted (on_runtime api config tools b id m o).0
  unfolding on_runtime
  All-on_runtime b id m none h kept found = h
  All-on_runtime b id m (some r) h kept found =
      let p = All-lookup (IsAccounted config.mailbox_size) id r b.sessions h found in
      All-put_back b id (m _) h (kept.keeps _ p)

  All-on_session :
      {A : Type 0} (b : SessionBroker S) (id : String) (m : Op S A)
      → AllAccounted b
      → Keeps (IsAccounted config.mailbox_size) m
      → AllAccounted (on_session api config tools b id m).0
  unfolding on_session
  All-on_session b id m h kept = All-on_runtime b id m _ h kept refl

  All-cancel_in :
      (b : SessionBroker S) (id : String) (epoch now : ℕ) (o : Option String)
      → AllAccounted b
      → AllAccounted (cancel_in api config tools b id epoch now o).0
  unfolding cancel_in
  All-cancel_in b id epoch now none h = h
  All-cancel_in b id epoch now (some session_id) h =
      All-on_session b session_id _ h (Keeps-cancel api config tools id epoch now)

  All-attached_new :
      (b : SessionBroker S) (now : ℕ) (answer : S × Result StoreError ConsoleSession)
      → AllAccounted b
      → AllAccounted (attached_new api config tools b now answer).0
  unfolding attached_new
  All-attached_new b now (store, raise e) h = h
  All-attached_new b now (store, ok session) h = elim (Bool-cases (tools.connects session)) [
    | inl connected ↦ rw connected (
        All-insert (IsAccounted config.mailbox_size) session.id _ b.sessions h
          (new_runtime-IsAccounted session (idle_deadline_at api config now)))
    | inr failed ↦ rw failed h
  ]

  All-reattached :
      (b : SessionBroker S) (r : SessionRuntime) (answer : S × Result StoreError ConsoleSession)
      → AllAccounted b
      → IsAccounted config.mailbox_size r
      → AllAccounted (reattached api config tools b r answer).0
  unfolding reattached
  All-reattached b r (store, raise e) h p = h
  All-reattached b r (store, ok session) h p =
      All-insert (IsAccounted config.mailbox_size) r.session.id _ b.sessions h p

  if_active-eq-some :
      (o : Option SessionRuntime) (r : SessionRuntime) → if_active o ≡ some r → o ≡ some r
  unfolding if_active
  if_active-eq-some none r e = absurd (let no : none ≡ some r = e in cc)
  if_active-eq-some (some q) r e = elim (Bool-cases (is_active q.session.state)) [
    | inl active ↦ rw active at e
    | inr inactive ↦ absurd (let no : none ≡ some r = rw inactive at e in cc)
  ]

  session_named-IsAccounted :
      (b : SessionBroker S) (o : Option String) (r : SessionRuntime)
      → AllAccounted b
      → session_named api config tools b o ≡ some r
      → IsAccounted config.mailbox_size r
  unfolding session_named
  session_named-IsAccounted b none r h e = absurd (let no : none ≡ some r = e in cc)
  session_named-IsAccounted b (some id) r h e =
      All-lookup (IsAccounted config.mailbox_size) id r b.sessions h
        (if_active-eq-some (lookup id b.sessions) r e)

  All-attach_found :
      (b : SessionBroker S) (request : AttachRequest) (id : String) (now : ℕ)
      (o : Option SessionRuntime)
      → AllAccounted b
      → existing_session api config tools b request.console_id ≡ o
      → AllAccounted (attach_found api config tools b request id now o).0
  unfolding attach_found existing_session
  All-attach_found b request id now (some r) h e =
      All-reattached b r _ h (session_named-IsAccounted b _ r h e)
  All-attach_found b request id now none h e =
      elim (limit_reached config.limits request (active_sessions b.sessions))
        as (λ reached.
          AllAccounted
            (if reached
              then (b, raise (broker_error "session_limit_reached" none))
              else attached_new api config tools b now
                  (api.attach_session b.store request id b.boot_id now none)).0) [
                    | true ↦ h
                    | false ↦ All-attached_new b now _ h
                  ]

  All-attach_serial :
      (b : SessionBroker S) (request : AttachRequest) (id : String) (now : ℕ)
      → AllAccounted b
      → AllAccounted (attach_serial api config tools b request id now).0
  unfolding attach_serial
  All-attach_serial b request id now h =
      elim b.is_running
        as (λ running.
          AllAccounted
            (if running
              then attach_found api config tools b request id now
                  (existing_session api config tools b request.console_id)
              else (b, raise not_running)).0) [
                | true ↦ All-attach_found b request id now _ h refl
                | false ↦ h
              ]

  All-goes_on :
      (q : SessionBroker S × Result Fault (Unit {0}))
      (next : SessionBroker S → SessionBroker S × Result Fault (Unit {0}))
      → AllAccounted q.0
      → ((b : SessionBroker S) → AllAccounted b → AllAccounted (next b).0)
      → AllAccounted (goes_on api config tools q next).0
  unfolding goes_on
  All-goes_on (b, raise e) next h later = h
  All-goes_on (b, ok u) next h later = later b h

  All-run_timers_on :
      (ids : List String) (now : ℕ) (b : SessionBroker S)
      → AllAccounted b
      → AllAccounted (run_timers_on api config tools ids now b).0
  unfolding run_timers_on
  All-run_timers_on [] now b h = h
  All-run_timers_on (id ∷ ids) now b h =
      All-goes_on (on_session api config tools b id _) _
        (All-on_session b id _ h (Keeps-run_timers api config tools now))
        (λ c k. All-run_timers_on ids now c k)

  Keeps-attach_ready :
      (support : ServerCancelState)
      → Keeps (IsAccounted config.mailbox_size) (attach_ready api config tools support)
  unfolding attach_ready
  Keeps-attach_ready support =
      let steady = IsSteady-IsAccounted config.mailbox_size in
      Keeps-bind Keeps-this (λ r.
        Keeps-then
          (Keeps-if _
            (Keeps-then
              (changed api config _ steady _ (λ r. refl) (λ r. refl) (λ r. refl) (λ r. refl)
                (λ r. (refl, λ id h. h)))
              (Keeps-save_session api config _ steady))
            (Keeps-return tt))
          (Keeps-bind Keeps-this (λ r. Keeps-return r.session)))

  All-broker_call :
      (c : BrokerCall) (b : SessionBroker S) → AllAccounted b → AllAccounted (broker_call c b)
  unfolding broker_call cancel_on run_timers_once
  All-broker_call (attaches request id now) b h = All-attach_serial b request id now h
  All-broker_call (steps id c) b h = All-on_session b id _ h (Keeps-call api config tools c)
  All-broker_call (cancels_on id epoch now) b h = All-cancel_in b id epoch now _ h
  All-broker_call (readies id support) b h = All-on_session b id _ h (Keeps-attach_ready support)
  All-broker_call (ticks now) b h = All-run_timers_on _ now b h

  -- A broker whose sessions all have a right account, as one without sessions has: after any calls, new
  -- sessions among them, the account of every session is right.
  pub broker_run-IsAccounted :
      (calls : List BrokerCall) (b : SessionBroker S)
      → All (λ e. IsAccounted config.mailbox_size e.1) b.sessions
      → All (λ e. IsAccounted config.mailbox_size e.1) (broker_run calls b).sessions
  unfolding broker_run
  broker_run-IsAccounted [] b h = h
  broker_run-IsAccounted (c ∷ cs) b h =
      broker_run-IsAccounted cs (broker_call c b) (All-broker_call c b h)
