-- ===== src/Broker/Store/Sweep/Agreement.antt =====
-- `MemoryBrokerStore.startup_sweep` and `PostgresBrokerStore.startup_sweep` of
-- app/broker/store.py, side by side.
use native.Mathlib.Nat.{zero-add}
use data_ops_studio_v.Base.{
  ℕ, suc, ◌+◌, ◌-◌, ◌≡◌, refl, sym, ap, ◌∙◌, String, Bool, true, false, List, [], ◌∷◌, map, length,
  filterb, Dict, values, Fresh, IsDict, Bool-cases, inl, inr, arith,
}
use data_ops_studio_v.Broker.Store.{
  ConsoleSession, ConsoleStatement, SweepReport, lost, interrupted, is_stale, in_ids,
}
use data_ops_studio_v.Broker.Store.Memory.{MemoryBrokerStore, sweep_sessions, sweep_statements}
use data_ops_studio_v.Broker.Store.Memory
use data_ops_studio_v.Broker.Store.Postgres.{Tables, is_interrupted, is_nil}
use data_ops_studio_v.Sql.{update_where, returning}
use data_ops_studio_v.Broker.Store.Postgres
use data_ops_studio_v.Broker.Store.Sweep.Loops.{
  replaced, selected_keys, values-replaced, sweep_sessions_lem, sweep_statements_lem, Apart-nil,
  is_read,
}
use data_ops_studio_v.Broker.Store.Sweep.Keys.{Keyed, map-selected_keys, update_by_ids}

abbrev pub session_id : ConsoleSession → String
session_id s = s.id

abbrev pub statement_id : ConsoleStatement → String
statement_id s = s.id

-- The tables hold the rows that the dictionaries hold, each under its id.
pub record Mirrors (m : MemoryBrokerStore) (p : Tables) : Type 0 where
  pub same_sessions : p.console_sessions ≡ values m.sessions
  pub same_statements : p.console_statements ≡ values m.statements
  pub session_dict : IsDict m.sessions
  pub statement_dict : IsDict m.statements
  pub session_keyed : Keyed session_id m.sessions
  pub statement_keyed : Keyed statement_id m.statements

module _ {V : Type 0} (c : V → Bool) (f : V → V) where
  Fresh-replaced : (k : String) (d : Dict V) → Fresh k d → Fresh k (replaced c f d)
  unfolding replaced
  Fresh-replaced k [] h = tt
  Fresh-replaced k ((j, v) ∷ d) h = (h.0, Fresh-replaced k d h.1)

  pub IsDict-replaced : (d : Dict V) → IsDict d → IsDict (replaced c f d)
  unfolding replaced
  IsDict-replaced [] h = tt
  IsDict-replaced ((k, v) ∷ d) h = (Fresh-replaced k d h.0, IsDict-replaced d h.1)

  Keyed-replaced :
      (id : V → String) (d : Dict V)
      → ((v : V) → id (f v) ≡ id v)
      → Keyed id d
      → Keyed id (replaced c f d)
  unfolding replaced
  Keyed-replaced id [] keep h = tt
  Keyed-replaced id ((k, v) ∷ d) keep h = elim (Bool-cases (c v)) [
    | inl hit ↦ rw hit (h.0 ∙ sym (keep v), Keyed-replaced id d keep h.1)
    | inr miss ↦ rw miss (h.0, Keyed-replaced id d keep h.1)
  ]

  update_where_none : (rows : List V) → ((v : V) → c v ≡ false) → update_where c f rows ≡ rows
  unfolding update_where
  update_where_none [] never = refl
  update_where_none (v ∷ rows) never = rw (never v) (ap (◌∷◌ v) (update_where_none rows never))

  pub filterb_none : (rows : List V) → ((v : V) → c v ≡ false) → filterb c rows ≡ []
  filterb_none [] never = refl
  filterb_none (v ∷ rows) never = rw (never v) (filterb_none rows never)

length-filterb-map :
    {V : Type 0} (p : V → Bool) (f : V → V) (rows : List V)
    → ((v : V) → p (f v) ≡ p v)
    → length (filterb p (map f rows)) ≡ length (filterb p rows)
length-filterb-map p f [] keep = refl
length-filterb-map p f (v ∷ rows) keep = elim (Bool-cases (p v)) [
  | inl hit ↦ rw (keep v, hit) (ap suc (length-filterb-map p f rows keep))
  | inr miss ↦ rw (keep v, miss) (length-filterb-map p f rows keep)
]

length-split :
    (f : ConsoleStatement → ConsoleStatement) (rows : List ConsoleStatement)
    → length (filterb (λ s. s.is_write) rows) + length (filterb is_read rows) ≡ length (map f rows)
length-split f [] = refl
length-split f (s ∷ rows) = elim (Bool-cases s.is_write) [
  | inl w ↦ rw w (omega (arith, length-split f rows))
  | inr r ↦ rw r (omega (arith, length-split f rows))
]

writes_left :
    (f : ConsoleStatement → ConsoleStatement) (rows : List ConsoleStatement)
    → length (map f rows) - length (filterb is_read rows) ≡ length (filterb (λ s. s.is_write) rows)
writes_left f rows = omega (arith, length-split f rows)

-- The ids that PostgreSQL selects for update.
abbrev stale_ids : String → List ConsoleSession → List String
stale_ids boot rows = map session_id (filterb (is_stale boot) rows)

-- The report of either sweep, from the ids of the lost sessions and the rows of the statements.
abbrev report : List String → List ConsoleStatement → SweepReport
report stale rows = record {
  sessions_lost = length stale;
  read_failed = length (filterb is_read (filterb (is_interrupted stale) rows));
  write_outcome_unknown = length (filterb (λ s. s.is_write) (filterb (is_interrupted stale) rows));
}

nil_of_is_nil : {A : Type 0} (xs : List A) → is_nil xs ≡ true → xs ≡ []
unfolding is_nil
nil_of_is_nil [] h = refl
nil_of_is_nil (x ∷ xs) h = cc

-- PostgreSQL's sweep without its early return, for any list of lost sessions.
abbrev swept : Tables → ℕ → List String → Tables × SweepReport
swept p now stale = (
  record p {
    console_sessions = update_where (λ s. in_ids s.id stale) (lost now) p.console_sessions;
    console_statements = update_where (is_interrupted stale) (interrupted now) p.console_statements;
  },
  report stale p.console_statements,
)

swept_nil :
    (p : Tables) (now : ℕ)
    → swept p now [] ≡ (p, record { sessions_lost = 0; read_failed = 0; write_outcome_unknown = 0 })
unfolding is_interrupted
swept_nil p now =
    rw
      (
        update_where_none (λ s. in_ids s.id []) (lost now) p.console_sessions (λ s. refl),
        update_where_none (is_interrupted []) (interrupted now) p.console_statements (λ s. refl),
        filterb_none (is_interrupted []) (interrupted now) p.console_statements (λ s. refl),
      )
      refl

interrupted_kind : (now : ℕ) (s : ConsoleStatement) → is_read (interrupted now s) ≡ is_read s
unfolding interrupted
interrupted_kind now s = refl

lost_id : (now : ℕ) (s : ConsoleSession) → session_id (lost now s) ≡ session_id s
unfolding lost
lost_id now s = refl

interrupted_id :
    (now : ℕ) (s : ConsoleStatement) → statement_id (interrupted now s) ≡ statement_id s
unfolding interrupted
interrupted_id now s = refl

pub postgres_sweep_lem :
    (p : Tables) (boot : String) (now : ℕ)
    → Postgres.startup_sweep p boot now ≡ swept p now (stale_ids boot p.console_sessions)
unfolding Postgres.startup_sweep returning
postgres_sweep_lem p boot now = elim (Bool-cases (is_nil (stale_ids boot p.console_sessions))) [
  | inl early ↦ rw early (
      sym (
        ap (swept p now) (nil_of_is_nil (stale_ids boot p.console_sessions) early)
        ∙ swept_nil p now))
  | inr late ↦
      let rows =
        filterb (is_interrupted (stale_ids boot p.console_sessions)) p.console_statements in
      rw (late, length-filterb-map is_read (interrupted now) rows (interrupted_kind now))
        (cc (writes_left (interrupted now) rows))
]

pub memory_sweep_lem :
    (m : MemoryBrokerStore) (boot : String) (now : ℕ)
    → IsDict m.sessions
    → IsDict m.statements
    → let stale = selected_keys (is_stale boot) m.sessions in
      Memory.startup_sweep m boot now ≡ (
        record m {
          sessions = replaced (is_stale boot) (lost now) m.sessions;
          statements = replaced (is_interrupted stale) (interrupted now) m.statements;
        },
        report stale (values m.statements),
      )
unfolding Memory.startup_sweep
memory_sweep_lem m boot now ds dt =
    let stale = selected_keys (is_stale boot) m.sessions in
    rw
      (
        sweep_sessions_lem boot now m.sessions [] [] 0 (Apart-nil m.sessions) ds,
        sweep_statements_lem stale now m.statements [] 0 0 (Apart-nil m.statements) dt,
      )
      (simp zero-add)

-- Started from the same rows, the sweep of the in-memory store and that of PostgreSQL end in the
-- same rows, again one to a key that is its id, and report the same three counts.
pub sweep_agrees :
    (m : MemoryBrokerStore) (p : Tables) (boot : String) (now : ℕ)
    → Mirrors m p
    → Mirrors (Memory.startup_sweep m boot now).0 (Postgres.startup_sweep p boot now).0
      × ((Memory.startup_sweep m boot now).1 ≡ (Postgres.startup_sweep p boot now).1)
sweep_agrees m p boot now h =
    rw
      (
        memory_sweep_lem m boot now h.session_dict h.statement_dict,
        postgres_sweep_lem p boot now,
        h.same_sessions,
        h.same_statements,
        map-selected_keys session_id (is_stale boot) m.sessions h.session_keyed,
      )
      (
        record {
          same_sessions =
              update_by_ids session_id (is_stale boot) (lost now) m.sessions h.session_keyed
                h.session_dict;
          same_statements = sym (values-replaced _ (interrupted now) m.statements);
          session_dict = IsDict-replaced _ _ m.sessions h.session_dict;
          statement_dict = IsDict-replaced _ _ m.statements h.statement_dict;
          session_keyed = Keyed-replaced _ _ session_id m.sessions (lost_id now) h.session_keyed;
          statement_keyed =
              Keyed-replaced _ _ statement_id m.statements (interrupted_id now) h.statement_keyed;
        },
        refl,
      )
