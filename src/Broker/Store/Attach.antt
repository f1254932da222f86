-- ===== src/Broker/Store/Attach.antt =====
-- `attach_session` of both stores in app/broker/store.py: epochs, and where the two part ways.
use data_ops_studio_v.Base.{
  ℕ, ◌+◌, ◌≡◌, refl, String, Bool, false, Option, none, some, [], ◌∷◌, ◌&&◌, if◌then◌else◌, str_eq,
  Dict, lookup, insert, values, Fresh, IsDict, Bool-cases, Option-cases, inl, inr, str_eq_refl,
  str_eq_iff, lookup-insert, filterb, Result, ok, raise, subst,
}
use data_ops_studio_v.Broker.State.{is_active}
use data_ops_studio_v.Broker.Store.{
  ConsoleSession, AttachRequest, StoreError, new_session, session_missing,
}
use data_ops_studio_v.Broker.Store.Memory.{MemoryBrokerStore, or_zero, attach_to}
use data_ops_studio_v.Broker.Store.Memory
use data_ops_studio_v.Broker.Store.Postgres.{
  Tables, SqlConsole, one_or_none, or_raise, owned_by, next_epoch, reuse_session,
}
use data_ops_studio_v.Broker.Store.Postgres
use data_ops_studio_v.Broker.Store.Sweep.Keys.{Keyed}
use data_ops_studio_v.Broker.Store.Sweep.Agreement.{Mirrors, session_id}

-- The epoch of a console in the in-memory store.
abbrev epoch_of : MemoryBrokerStore → String → ℕ
epoch_of m console = or_zero (lookup console m.epochs)

epoch_of-insert :
    (epochs : Dict ℕ) (changed console : String) (e : ℕ)
    → or_zero (lookup console (insert changed e epochs))
      ≡ (if str_eq changed console then e else or_zero (lookup console epochs))
epoch_of-insert epochs changed console e =
    rw (lookup-insert changed console e epochs)
      (elim (Bool-cases (str_eq changed console)) [ inl same ↦ rw same | inr other ↦ rw other ])

missing : {s : ConsoleSession} → raise session_missing ≡ ok s → ⊥
missing h = cc

some_of : {s t : ConsoleSession} → ◌≡◌ {A = Result StoreError ConsoleSession} (ok s) (ok t) → s ≡ t
some_of h = cc

some_eq : {s t : ConsoleSession} → some s ≡ some t → s ≡ t
some_eq h = cc

read_back : (s : ConsoleSession) (d : Dict ConsoleSession) → lookup s.id (insert s.id s d) ≡ some s
read_back s d = simp (lookup-insert, str_eq_refl)

-- A successful attach returns a session whose epoch is one above the console's last one, records
-- that epoch for the console and no other, and stores the session under its id.
pub attach_epoch :
    (m : MemoryBrokerStore) (request : AttachRequest) (sid boot : String) (now : ℕ)
    (reuse : Option String) (s : ConsoleSession) (console : String)
    → (Memory.attach_session m request sid boot now reuse).1 ≡ ok s
    → let m' = (Memory.attach_session m request sid boot now reuse).0 in
      (s.epoch ≡ epoch_of m request.console_id + 1)
      × (epoch_of m' console
          ≡ (if str_eq request.console_id console then s.epoch else epoch_of m console))
      × (Memory.get_session m' s.id ≡ some s)
unfolding Memory.attach_session Memory.get_session new_session
attach_epoch m request sid boot now none s console h =
    let fresh : ConsoleSession =
      new_session request sid boot (epoch_of m request.console_id + 1) now in
    let same : fresh ≡ s = cc in
    let e =
      epoch_of-insert m.epochs request.console_id console (epoch_of m request.console_id + 1) in
    rw (← same) (refl, e, read_back fresh m.sessions)
attach_epoch m request sid boot now (some id) s console h =
    elim (Option-cases (lookup id m.sessions)) [
      | inl gone ↦ absurd (missing (rw gone at h))
      | inr (old, live) ↦
          let attached : ConsoleSession = record old {
            epoch = epoch_of m request.console_id + 1;
            last_activity_at = now;
          } in
          let same : attached ≡ s = some_of (rw live at h) in
          let e =
            epoch_of-insert m.epochs request.console_id console
              (epoch_of m request.console_id + 1) in
          rw (live, ← same) (refl, e, read_back attached m.sessions)
    ]

abbrev live_under : String → ConsoleSession → Bool
live_under id t = str_eq t.id id && is_active t.state

none_live_Fresh :
    (id : String) (d : Dict ConsoleSession)
    → Fresh id d
    → Keyed session_id d
    → filterb (live_under id) (values d) ≡ []
none_live_Fresh id [] f h = refl
none_live_Fresh id ((k, t) ∷ d) f h =
    let other : str_eq t.id id ≡ false = rw (← h.0) f.0 in rw other (none_live_Fresh id d f.1 h.1)

none_live :
    (id : String) (s : ConsoleSession) (d : Dict ConsoleSession)
    → IsDict d
    → Keyed session_id d
    → lookup id d ≡ some s
    → is_active s.state ≡ false
    → filterb (live_under id) (values d) ≡ []
unfolding lookup
none_live id s [] u h e off = refl
none_live id s ((k, t) ∷ d) u h e off = elim (Bool-cases (str_eq k id)) [
  | inl same ↦
      let it : t ≡ s = some_eq (rw same at e) in
      let out : is_active t.state ≡ false = rw it off in
      let fresh : Fresh id d = subst (λ x. Fresh x d) ((str_eq_iff k id).0 same) u.0 in
      rw (← h.0, same, out) (none_live_Fresh id d fresh h.1)
  | inr other ↦ rw (← h.0, other) (none_live id s d u.1 h.1 (rw other at e) off)
]

refuse_reuse :
    (p : Tables) (epoch now : ℕ) (id : String)
    → filterb (live_under id) p.console_sessions ≡ []
    → reuse_session p epoch now id ≡ raise session_missing
unfolding reuse_session
refuse_reuse p epoch now id none_left = rw none_left

-- Where the two stores part ways: asked to reuse a session that is no longer active, on a console
-- that the caller owns, the in-memory store attaches to it and PostgreSQL refuses.
pub attach_reuse_inactive :
    (m : MemoryBrokerStore) (p : Tables) (request : AttachRequest) (sid boot id : String) (now : ℕ)
    (s : ConsoleSession) (c : SqlConsole)
    → Mirrors m p
    → lookup id m.sessions ≡ some s
    → is_active s.state ≡ false
    → filterb (owned_by request) p.sql_consoles ≡ c ∷ []
    → ((Memory.attach_session m request sid boot now (some id)).1
        ≡ ok (record s { epoch = epoch_of m request.console_id + 1; last_activity_at = now }))
      × (Postgres.attach_session p request sid boot now (some id) ≡ raise session_missing)
unfolding Memory.attach_session Postgres.attach_session
attach_reuse_inactive m p request sid boot id now s c h live off owner =
    (rw live refl, rw owner (refuse_reuse (record p { sql_consoles = _ }) _ now id rows))
  where
    rows : filterb (live_under id) p.console_sessions ≡ []
    rows = rw h.same_sessions (none_live id s m.sessions h.session_dict h.session_keyed live off)
