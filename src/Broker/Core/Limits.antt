-- ===== src/Broker/Core/Limits.antt =====
-- The limits of `_enforce_session_limits`, app/broker/core.py, after a session was attached.
use data_ops_studio_v.Base.{
  ℕ, ◌+◌, ◌≤◌, ◌≡◌, ap, subst, String, Bool, true, false, none, List, [], ◌∷◌, Dict, insert, length,
  filterb, str_eq, Result, raise, ok, arith, Bool-cases, inl, inr,
}
use data_ops_studio_v.Broker.Store.{ConsoleSession, AttachRequest, StoreError}
use data_ops_studio_v.Broker.Core.{
  SessionRuntime, SessionLimits, BrokerConfig, BrokerStore, Tools, Fault,
}
use data_ops_studio_v.Broker.Core.Changes.{idle_deadline_at}
use data_ops_studio_v.Broker.Core.Attach.{
  attach_found, SessionBroker, new_runtime, active_sessions, count_owned, count_on, limit_reached,
  existing_session, attached_new, attach_serial,
}

-- A session that is written raises a count of active sessions by at most one.
count_insert :
    (p : ConsoleSession → Bool) (id : String) (r : SessionRuntime) (d : Dict SessionRuntime)
    → length (filterb p (active_sessions (insert id r d)))
      ≤ length (filterb p (active_sessions d)) + 1
unfolding active_sessions insert
count_insert p id r [] = ground arith
count_insert p id r ((j, q) ∷ d) = ground (arith, count_insert p id r d)

length-insert :
    (id : String) (r : SessionRuntime) (d : Dict SessionRuntime)
    → length (active_sessions (insert id r d)) ≤ length (active_sessions d) + 1
unfolding active_sessions insert
length-insert id r [] = ground arith
length-insert id r ((j, q) ∷ d) = ground (arith, length-insert id r d)

-- The active sessions keep the limits, of all, of the user and of the datasource.
pub record WithinLimits (limits : SessionLimits) (request : AttachRequest)
    (active : List ConsoleSession) : Type 0 where
  pub all_sessions : length active ≤ limits.global_total
  pub of_user : count_owned request.owner_user_id active ≤ limits.per_user
  pub of_datasource : count_on request.datasource_id active ≤ limits.per_datasource

insert-WithinLimits :
    (limits : SessionLimits) (request : AttachRequest) (id : String) (r : SessionRuntime)
    (d : Dict SessionRuntime)
    → limit_reached limits request (active_sessions d) ≡ false
    → WithinLimits limits request (active_sessions (insert id r d))
unfolding limit_reached count_owned count_on
insert-WithinLimits limits request id r d free = record {
  all_sessions = ground (arith, length-insert id r d);
  of_user = ground (
    arith,
    count_insert (λ (s : ConsoleSession). str_eq s.owner_user_id request.owner_user_id) id r d,
  );
  of_datasource = ground (
    arith,
    count_insert (λ (s : ConsoleSession). str_eq s.datasource_id request.datasource_id) id r d,
  );
}

module _ {S : Type 0} (api : BrokerStore S) (config : BrokerConfig) (tools : Tools) where
  attached_new-WithinLimits :
      (b b' : SessionBroker S) (request : AttachRequest) (session : ConsoleSession) (now : ℕ)
      (answer : S × Result StoreError ConsoleSession)
      → limit_reached config.limits request (active_sessions b.sessions) ≡ false
      → attached_new api config tools b now answer ≡ (b', ok session)
      → WithinLimits config.limits request (active_sessions b'.sessions)
  unfolding attached_new
  attached_new-WithinLimits b b' request session now (store, raise e) free done =
      let clash : ◌≡◌ {A = Result Fault ConsoleSession} (raise _) (ok session) =
        ap (λ q. q.1) done in
      cc
  attached_new-WithinLimits b b' request session now (store, ok s) free done =
      elim (Bool-cases (tools.connects s)) [
        | inl connected ↦
            subst
              (λ (q : SessionBroker S × Result Fault ConsoleSession).
                WithinLimits config.limits request (active_sessions q.0.sessions))
              (rw connected at done)
              (insert-WithinLimits config.limits request s.id
                (new_runtime s (idle_deadline_at api config now)) b.sessions free)
        | inr failed ↦
            let clash : ◌≡◌ {A = Result Fault ConsoleSession} (raise _) (ok session) =
              ap (λ q. q.1) (rw failed at done) in
            cc
      ]

  -- Where the console has no active session and `attach` returns one, whatever the store answered: the
  -- active sessions are at most as many as the limits allow, in all, of the user and on the
  -- datasource.
  pub attach_serial-WithinLimits :
      (b b' : SessionBroker S) (request : AttachRequest) (session : ConsoleSession)
      (session_id : String) (now : ℕ)
      → existing_session api config tools b request.console_id ≡ none
      → attach_serial api config tools b request session_id now ≡ (b', ok session)
      → WithinLimits config.limits request (active_sessions b'.sessions)
  unfolding attach_serial attach_found
  attach_serial-WithinLimits b b' request session session_id now new done =
      elim (Bool-cases b.is_running) [
        | inr stopped ↦
            let clash : ◌≡◌ {A = Result Fault ConsoleSession} (raise _) (ok session) =
              ap (λ q. q.1) (rw (stopped, attach_serial, attach_found) at done) in
            cc
        | inl running ↦
            elim (Bool-cases (limit_reached config.limits request (active_sessions b.sessions))) [
              | inl reached ↦
                  let clash : ◌≡◌ {A = Result Fault ConsoleSession} (raise _) (ok session) =
                    ap (λ q. q.1)
                      (rw (new, running, reached, attach_serial, attach_found) at done) in
                  cc
              | inr free ↦
                  attached_new-WithinLimits (record b { is_running = true }) b' request session now
                    _ free (rw (new, running, free, attach_serial, attach_found) at done)
            ]
      ]
