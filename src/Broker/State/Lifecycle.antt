-- ===== src/Broker/State/Lifecycle.antt =====
-- What the two transition tables of app/broker/state.py imply for whole lives.
use data_ops_studio_v.Base.{
  ℕ, ◌+◌, ◌≤◌, ◌<◌, ◌≡◌, true, false, List, [], ◌∷◌, ok, >>=-eq-ok, if◌then◌else◌, arith, inl, inr,
  subst, length, of_dec_b, ap, Bool-cases,
}
use data_ops_studio_v.Broker.State.{
  ConsoleSessionState, ConsoleStatementState, is_active, session_eq, session_listed,
  statement_listed, statement_eq, ConsoleStatementState-discrete, transition_session,
  transition_statement, run_session, run_statement,
}

inactive_fixed :
    (s t u : ConsoleSessionState) → is_active s ≡ false → transition_session s t ≡ ok u → u ≡ s
unfolding is_active transition_session session_eq session_listed
inactive_fixed s t u = ground arith

-- A session that has left the active states never changes state again: whatever targets it is
-- given, a life that is not refused ends where it began.
pub run_session-inactive :
    (s : ConsoleSessionState) (ts : List ConsoleSessionState) (u : ConsoleSessionState)
    → is_active s ≡ false
    → run_session s ts ≡ ok u
    → u ≡ s
unfolding run_session
run_session-inactive s [] u h e = cc
run_session-inactive s (t ∷ ts) u h e =
    let (v, first, rest) = >>=-eq-ok (transition_session s t) (λ w. run_session w ts) e in
    let same : v ≡ s = inactive_fixed s t v h first in
    run_session-inactive s ts u h (subst (λ w. run_session w ts ≡ ok u) same rest)

abbrev way_out : ConsoleSessionState → List ConsoleSessionState
way_out ConsoleSessionState.closing = ConsoleSessionState.closed ∷ []
way_out _ = ConsoleSessionState.closing ∷ ConsoleSessionState.closed ∷ []

-- Every active session has a life that closes it, of at most two transitions.
pub run_session-closes :
    (s : ConsoleSessionState)
    → is_active s ≡ true
    → (ts : List ConsoleSessionState) × (run_session s ts ≡ ok ConsoleSessionState.closed)
      × (length ts ≤ 2)
unfolding run_session transition_session session_eq session_listed is_active
run_session-closes s h = (way_out s, ground arith, ground arith)

-- How far a statement has come.
pub stage : ConsoleStatementState → ℕ
stage ConsoleStatementState.accepted = 0
stage ConsoleStatementState.executing = 1
stage ConsoleStatementState.streaming = 2
stage _ = 3

-- The changes of state in a life.
pub changes : ConsoleStatementState → List ConsoleStatementState → ℕ
changes s [] = 0
changes s (t ∷ ts) = (if statement_eq s t then 0 else 1) + changes t ts

listed_climbs : (s t : ConsoleStatementState) → statement_listed s t ≡ true → stage s < stage t
unfolding statement_listed stage
listed_climbs ConsoleStatementState.accepted t h = ground arith
listed_climbs _ t h = ground arith

eq_of_statement_eq : (s t : ConsoleStatementState) → statement_eq s t ≡ true → s ≡ t
unfolding statement_eq
eq_of_statement_eq s t h = of_dec_b (ConsoleStatementState-discrete s t) h

step-stage :
    (s t u : ConsoleStatementState)
    → transition_statement s t ≡ ok u
    → (u ≡ t) × ((if statement_eq s t then 0 else 1) + stage s ≤ stage t)
unfolding transition_statement
step-stage s t u e = elim (Bool-cases (statement_eq s t)) [
  | inl same ↦ rw same (ground (arith, ap stage (eq_of_statement_eq s t same)))
  | inr other ↦ rw other (ground (arith, listed_climbs s t))
]

-- The stages that a life climbs bound its changes of state.
climbed :
    (s : ConsoleStatementState) (ts : List ConsoleStatementState) (u : ConsoleStatementState)
    → run_statement s ts ≡ ok u
    → changes s ts + stage s ≤ stage u
unfolding run_statement changes
climbed s [] u e = ground arith
climbed s (t ∷ ts) u e =
    let (v, first, rest) = >>=-eq-ok (transition_statement s t) (λ w. run_statement w ts) e in
    let (same, up) = step-stage s t v first in
    omega (arith, climbed t ts u (subst (λ w. run_statement w ts ≡ ok u) same rest))

stage-le : (s : ConsoleStatementState) → stage s ≤ 3
unfolding stage
stage-le s = ground arith

-- A statement only moves forward: along a life that is not refused its stage rises by at least
-- one with each change of state, so it changes state at most three times.
pub changes-le-stage :
    (s : ConsoleStatementState) (ts : List ConsoleStatementState) (u : ConsoleStatementState)
    → run_statement s ts ≡ ok u
    → (changes s ts + stage s ≤ stage u) × (changes s ts ≤ 3)
changes-le-stage s ts u e = omega (arith, climbed s ts u e, stage-le u)
