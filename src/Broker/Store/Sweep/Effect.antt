-- ===== src/Broker/Store/Sweep/Effect.antt =====
-- What `MemoryBrokerStore.startup_sweep` in app/broker/store.py leaves of each row.
use mathlib.Core.Option
use data_ops_studio_v.Base.{
  ℕ, ◌≡◌, refl, ap, String, Bool, false, List, [], ◌∷◌, ◌&&◌, if◌then◌else◌, str_eq, Dict, lookup,
  IsDict, Bool-cases, inl, inr, arith,
}
use data_ops_studio_v.Broker.State.{is_active}
use data_ops_studio_v.Broker.Store.{
  ConsoleSession, ConsoleStatement, lost, interrupted, is_stale, in_flight, in_ids,
}
use data_ops_studio_v.Broker.Store.Memory.{MemoryBrokerStore, startup_sweep}
use data_ops_studio_v.Broker.Store.Postgres.{is_interrupted}
use data_ops_studio_v.Broker.Store.Sweep.Loops.{replaced, selected_keys}
use data_ops_studio_v.Broker.Store.Sweep.Agreement.{memory_sweep_lem, IsDict-replaced, filterb_none}

module _ {V : Type 0} (c : V → Bool) (f : V → V) where
  lookup-replaced :
      (k : String) (d : Dict V)
      → lookup k (replaced c f d) ≡ Option.map (λ v. if c v then f v else v) (lookup k d)
  unfolding lookup replaced
  lookup-replaced k [] = refl
  lookup-replaced k ((j, v) ∷ d) = elim (Bool-cases (str_eq j k)) [
    | inl same ↦ rw same refl
    | inr other ↦ rw other (lookup-replaced k d)
  ]

  replaced_twice :
      (g : V → V) (d : Dict V)
      → ((v : V) → c (f v) ≡ false)
      → replaced c g (replaced c f d) ≡ replaced c f d
  unfolding replaced
  replaced_twice g [] settled = refl
  replaced_twice g ((k, v) ∷ d) settled = elim (Bool-cases (c v)) [
    | inl hit ↦ rw (hit, settled v) (ap (◌∷◌ (k, f v)) (replaced_twice g d settled))
    | inr miss ↦ rw (miss, miss) (ap (◌∷◌ (k, v)) (replaced_twice g d settled))
  ]

  selected_keys-replaced :
      (d : Dict V) → ((v : V) → c (f v) ≡ false) → selected_keys c (replaced c f d) ≡ []
  unfolding replaced selected_keys
  selected_keys-replaced [] settled = refl
  selected_keys-replaced ((k, v) ∷ d) settled = elim (Bool-cases (c v)) [
    | inl hit ↦ rw (hit, settled v) (selected_keys-replaced d settled)
    | inr miss ↦ rw (miss, miss) (selected_keys-replaced d settled)
  ]

replaced_none :
    {V : Type 0} (c : V → Bool) (f : V → V) (d : Dict V)
    → ((v : V) → c v ≡ false)
    → replaced c f d ≡ d
unfolding replaced
replaced_none c f [] never = refl
replaced_none c f ((k, v) ∷ d) never = rw (never v) (ap (◌∷◌ (k, v)) (replaced_none c f d never))

none_interrupted : (s : ConsoleStatement) → is_interrupted [] s ≡ false
unfolding is_interrupted
none_interrupted s = refl

lost_settled : (boot : String) (now : ℕ) (s : ConsoleSession) → is_stale boot (lost now s) ≡ false
unfolding is_stale lost is_active
lost_settled boot now s = ground arith

-- The sessions that a sweep finds active under another boot id.
abbrev stale_sessions : String → MemoryBrokerStore → List String
stale_sessions boot m = selected_keys (is_stale boot) m.sessions

-- After a sweep every id names what it named before, but for the sessions that were active under
-- another boot id, which are lost, and for the statements of these that were in flight, which are
-- `outcome_unknown` if they write and `failed` if they read.
pub sweep_at :
    (m : MemoryBrokerStore) (boot : String) (now : ℕ) (id : String)
    → IsDict m.sessions
    → IsDict m.statements
    → let m' = (startup_sweep m boot now).0 in
      (lookup id m'.sessions
        ≡ Option.map (λ s. if is_stale boot s then lost now s else s) (lookup id m.sessions))
      × (lookup id m'.statements
          ≡ Option.map
              (λ s.
                if in_ids s.session_id (stale_sessions boot m) && in_flight s.state
                then interrupted now s
                else s)
              (lookup id m.statements))
unfolding is_interrupted
sweep_at m boot now id ds dt =
    rw (memory_sweep_lem m boot now ds dt)
      (lookup-replaced _ _ id m.sessions, lookup-replaced _ _ id m.statements)

abbrev swept_store : MemoryBrokerStore → String → ℕ → MemoryBrokerStore
swept_store m boot now = record m {
  sessions = replaced (is_stale boot) (lost now) m.sessions;
  statements = replaced (is_interrupted (stale_sessions boot m)) (interrupted now) m.statements;
}

-- A second sweep of the same process, at any time, finds nothing to do: the store stays as the
-- first sweep left it, and the report is zero.
pub sweep_twice :
    (m : MemoryBrokerStore) (boot : String) (now later : ℕ)
    → IsDict m.sessions
    → IsDict m.statements
    → let m' = (startup_sweep m boot now).0 in
      startup_sweep m' boot later
      ≡ (m', record { sessions_lost = 0; read_failed = 0; write_outcome_unknown = 0 })
sweep_twice m boot now later ds dt =
    let settled = lost_settled boot now in
    rw (
      memory_sweep_lem m boot now ds dt,
      memory_sweep_lem (swept_store m boot now) boot later
          (IsDict-replaced (is_stale boot) (lost now) m.sessions ds)
          (IsDict-replaced (is_interrupted (stale_sessions boot m)) (interrupted now) m.statements
            dt),
      replaced_twice (is_stale boot) (lost now) (lost later) m.sessions settled,
      selected_keys-replaced (is_stale boot) (lost now) m.sessions settled,
      replaced_none (is_interrupted []) (interrupted later) _ none_interrupted,
      filterb_none (is_interrupted []) (interrupted later) _ none_interrupted,
    )
