-- ===== src/Broker/Store/Sweep/Loops.antt =====
-- The two loops of `MemoryBrokerStore.startup_sweep` in app/broker/store.py, as one pass each.
use mathlib.Core.List.{append-nil}
use data_ops_studio_v.Base.{
  ℕ, suc, ◌+◌, ◌≡◌, refl, String, Bool, true, false, not, List, [], ◌∷◌, ◌++◌, ◌&&◌, if◌then◌else◌,
  str_eq, length, filterb, Dict, values, Fresh, IsDict, insert-append, str_eq_flip, Bool-cases, inl,
  inr, arith, snoc-append,
}
use data_ops_studio_v.Broker.Store.{
  ConsoleSession, ConsoleStatement, lost, interrupted, is_stale, in_flight, in_ids,
}
use data_ops_studio_v.Broker.Store.Memory.{sweep_sessions, sweep_statements}
use data_ops_studio_v.Broker.Store.Postgres.{is_interrupted}
use data_ops_studio_v.Sql.{update_where}

module _ {V : Type 0} where
  -- No key of `rest` is a key of `done`.
  abbrev pub Apart : Dict V → Dict V → Type 0
  Apart done [] = Unit
  Apart done ((k, v) ∷ rest) = Fresh k done × Apart done rest

  Fresh-snoc :
      (j k : String) (v : V) (done : Dict V)
      → str_eq k j ≡ false
      → Fresh j done
      → Fresh j (done ++ (k, v) ∷ [])
  Fresh-snoc j k v [] h f = (h, tt)
  Fresh-snoc j k v ((i, w) ∷ done) h f = (f.0, Fresh-snoc j k v done h f.1)

  Apart-snoc :
      (k : String) (v : V) (done rest : Dict V)
      → Fresh k rest
      → Apart done rest
      → Apart (done ++ (k, v) ∷ []) rest
  Apart-snoc k v done [] f a = tt
  Apart-snoc k v done ((j, w) ∷ rest) f a =
      (Fresh-snoc j k v done (str_eq_flip j k f.0) a.0, Apart-snoc k v done rest f.1 a.1)

  pub Apart-nil : (d : Dict V) → Apart [] d
  Apart-nil [] = tt
  Apart-nil ((k, v) ∷ d) = (tt, Apart-nil d)

  -- Every value that `c` selects is replaced, each under its own key.
  unfoldable pub replaced : (V → Bool) → (V → V) → Dict V → Dict V
  replaced c f [] = []
  replaced c f ((k, v) ∷ d) = (k, (if c v then f v else v)) ∷ replaced c f d

  unfoldable pub selected_keys : (V → Bool) → Dict V → List String
  selected_keys c [] = []
  selected_keys c ((k, v) ∷ d) = let rest = selected_keys c d in if c v then k ∷ rest else rest

  pub values-replaced :
      (c : V → Bool) (f : V → V) (d : Dict V)
      → values (replaced c f d) ≡ update_where c f (values d)
  unfolding replaced update_where
  values-replaced c f [] = refl
  values-replaced c f ((k, v) ∷ d) = cc (values-replaced c f d)

one_more : (n k : ℕ) → n + 1 + k ≡ n + suc k
one_more n k = omega arith

pub sweep_sessions_lem :
    (boot : String) (now : ℕ) (rest done : Dict ConsoleSession) (stale : List String) (n : ℕ)
    → Apart done rest
    → IsDict rest
    → sweep_sessions boot now rest (done ++ rest, stale, n) ≡ (
      done ++ replaced (is_stale boot) (lost now) rest,
      stale ++ selected_keys (is_stale boot) rest,
      n + length (selected_keys (is_stale boot) rest),
    )
unfolding sweep_sessions replaced selected_keys
sweep_sessions_lem boot now [] done stale n a d = ground (arith, append-nil done, append-nil stale)
sweep_sessions_lem boot now ((k, s) ∷ rest) done stale n a d = elim (Bool-cases (is_stale boot s)) [
  | inl hit ↦
      let e : String × ConsoleSession = (k, lost now s) in
      rw (hit, insert-append k (lost now s) s done rest a.0)
        (cc (
          one_more n (length (selected_keys (is_stale boot) rest)),
          sweep_sessions_lem boot now rest (done ++ e ∷ []) (stale ++ k ∷ []) (n + 1)
              (Apart-snoc k (lost now s) done rest d.0 a.1) d.1,
          snoc-append done e rest,
          snoc-append done e (replaced (is_stale boot) (lost now) rest),
          snoc-append stale k (selected_keys (is_stale boot) rest),
        ))
  | inr miss ↦
      let e : String × ConsoleSession = (k, s) in
      rw miss (
        cc (
          sweep_sessions_lem boot now rest (done ++ e ∷ []) stale n
              (Apart-snoc k s done rest d.0 a.1) d.1,
          snoc-append done e rest,
          snoc-append done e (replaced (is_stale boot) (lost now) rest),
        ))
]

abbrev pub counted : (ConsoleStatement → Bool) → List String → Dict ConsoleStatement → ℕ
counted p stale d = length (filterb p (filterb (is_interrupted stale) (values d)))

abbrev pub is_read : ConsoleStatement → Bool
is_read s = not s.is_write

count_write :
    {A : Type 0} (b : Bool) (n : ℕ) (x : A) (xs : List A)
    → (if b then n + 1 else n) + length xs ≡ n + length (if b then x ∷ xs else xs)
count_write true n x xs = one_more n (length xs)
count_write false n x xs = refl

count_read :
    {A : Type 0} (b : Bool) (n : ℕ) (x : A) (xs : List A)
    → (if b then n else n + 1) + length xs ≡ n + length (if not b then x ∷ xs else xs)
count_read true n x xs = refl
count_read false n x xs = one_more n (length xs)

pub sweep_statements_lem :
    (stale : List String) (now : ℕ) (rest done : Dict ConsoleStatement) (u f : ℕ)
    → Apart done rest
    → IsDict rest
    → sweep_statements stale now rest (done ++ rest, u, f) ≡ (
      done ++ replaced (is_interrupted stale) (interrupted now) rest,
      u + counted (λ s. s.is_write) stale rest,
      f + counted is_read stale rest,
    )
unfolding sweep_statements replaced is_interrupted
sweep_statements_lem stale now [] done u f a d = ground (arith, append-nil done)
sweep_statements_lem stale now ((k, s) ∷ rest) done u f a d =
    elim (Bool-cases (in_ids s.session_id stale && in_flight s.state)) [
      | inl hit ↦
          let e : String × ConsoleStatement = (k, interrupted now s) in
          rw (hit, insert-append k (interrupted now s) s done rest a.0)
            (cc (
              sweep_statements_lem stale now rest (done ++ e ∷ []) (if s.is_write then u + 1 else u)
                  (if s.is_write then f else f + 1)
                  (Apart-snoc k (interrupted now s) done rest d.0 a.1) d.1,
              snoc-append done e rest,
              snoc-append done e (replaced (is_interrupted stale) (interrupted now) rest),
              count_write s.is_write u s
                  (filterb (λ t. t.is_write) (filterb (is_interrupted stale) (values rest))),
              count_read s.is_write f s
                  (filterb is_read (filterb (is_interrupted stale) (values rest))),
            ))
      | inr miss ↦
          let e : String × ConsoleStatement = (k, s) in
          rw miss (
            cc (
              sweep_statements_lem stale now rest (done ++ e ∷ []) u f
                  (Apart-snoc k s done rest d.0 a.1) d.1,
              snoc-append done e rest,
              snoc-append done e (replaced (is_interrupted stale) (interrupted now) rest),
            ))
    ]
