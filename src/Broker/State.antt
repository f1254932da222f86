-- ===== src/Broker/State.antt =====
-- app/broker/state.py and the state enumerations of app/domain/console_session.py: the one
-- transition table of console sessions and the one of statements. A session's or statement's
-- life is a list of the targets that `transition_session` or `transition_statement` is given.
pub mod Lifecycle
use data_ops_studio_v.Base.{
  Bool, List, [], ◌∷◌, ◌&&◌, any, dec_b, Result, ok, raise, ◌>>=◌, if◌then◌else◌,
}

pub data ConsoleSessionState : Type 0 where
  connecting idle executing cancelling closing closed session_lost connect_failed :
      ConsoleSessionState

pub data ConsoleStatementState : Type 0 where
  accepted executing streaming succeeded failed cancelled timeout outcome_unknown skipped :
      ConsoleStatementState

unfoldable pub ConsoleSessionState-discrete : Discrete ConsoleSessionState
ConsoleSessionState-discrete = hlevel

unfoldable pub ConsoleStatementState-discrete : Discrete ConsoleStatementState
ConsoleStatementState-discrete = hlevel

-- The source's `is` and `==` on the enumerations.
unfoldable pub session_eq : ConsoleSessionState → ConsoleSessionState → Bool
unfolding ConsoleSessionState-discrete
session_eq s t = dec_b (ConsoleSessionState-discrete s t)

unfoldable pub statement_eq : ConsoleStatementState → ConsoleStatementState → Bool
unfolding ConsoleStatementState-discrete
statement_eq s t = dec_b (ConsoleStatementState-discrete s t)

unfoldable pub active_console_session_states : List ConsoleSessionState
active_console_session_states =
    ConsoleSessionState.connecting ∷ ConsoleSessionState.idle ∷ ConsoleSessionState.executing
    ∷ ConsoleSessionState.cancelling ∷ ConsoleSessionState.closing ∷ []

unfoldable pub is_active : ConsoleSessionState → Bool
unfolding active_console_session_states session_eq
is_active s = any (session_eq s) active_console_session_states

unfoldable pub session_transitions : List (ConsoleSessionState × ConsoleSessionState)
session_transitions =
    (ConsoleSessionState.connecting, ConsoleSessionState.idle)
    ∷ (ConsoleSessionState.connecting, ConsoleSessionState.connect_failed)
    ∷ (ConsoleSessionState.connecting, ConsoleSessionState.closing)
    ∷ (ConsoleSessionState.idle, ConsoleSessionState.executing)
    ∷ (ConsoleSessionState.idle, ConsoleSessionState.closing)
    ∷ (ConsoleSessionState.idle, ConsoleSessionState.closed)
    ∷ (ConsoleSessionState.idle, ConsoleSessionState.session_lost)
    ∷ (ConsoleSessionState.executing, ConsoleSessionState.idle)
    ∷ (ConsoleSessionState.executing, ConsoleSessionState.cancelling)
    ∷ (ConsoleSessionState.executing, ConsoleSessionState.closing)
    ∷ (ConsoleSessionState.executing, ConsoleSessionState.session_lost)
    ∷ (ConsoleSessionState.cancelling, ConsoleSessionState.idle)
    ∷ (ConsoleSessionState.cancelling, ConsoleSessionState.closing)
    ∷ (ConsoleSessionState.cancelling, ConsoleSessionState.session_lost)
    ∷ (ConsoleSessionState.closing, ConsoleSessionState.closed)
    ∷ (ConsoleSessionState.closing, ConsoleSessionState.session_lost)
    ∷ []

unfoldable pub statement_transitions : List (ConsoleStatementState × ConsoleStatementState)
statement_transitions =
    (ConsoleStatementState.accepted, ConsoleStatementState.executing)
    ∷ (ConsoleStatementState.accepted, ConsoleStatementState.cancelled)
    ∷ (ConsoleStatementState.accepted, ConsoleStatementState.skipped)
    ∷ (ConsoleStatementState.accepted, ConsoleStatementState.failed)
    ∷ (ConsoleStatementState.executing, ConsoleStatementState.streaming)
    ∷ (ConsoleStatementState.executing, ConsoleStatementState.succeeded)
    ∷ (ConsoleStatementState.executing, ConsoleStatementState.failed)
    ∷ (ConsoleStatementState.executing, ConsoleStatementState.cancelled)
    ∷ (ConsoleStatementState.executing, ConsoleStatementState.timeout)
    ∷ (ConsoleStatementState.executing, ConsoleStatementState.outcome_unknown)
    ∷ (ConsoleStatementState.streaming, ConsoleStatementState.succeeded)
    ∷ (ConsoleStatementState.streaming, ConsoleStatementState.failed)
    ∷ (ConsoleStatementState.streaming, ConsoleStatementState.cancelled)
    ∷ (ConsoleStatementState.streaming, ConsoleStatementState.timeout)
    ∷ (ConsoleStatementState.streaming, ConsoleStatementState.outcome_unknown)
    ∷ []

-- `InvalidStateTransition`, with the two states that its message names.
pub data InvalidTransition (A : Type 0) : Type 0 where
  illegal_transition : A → A → InvalidTransition A

unfoldable pub session_listed : ConsoleSessionState → ConsoleSessionState → Bool
unfolding session_transitions session_eq
session_listed source target =
    any (λ e. session_eq source e.0 && session_eq target e.1) session_transitions

unfoldable pub statement_listed : ConsoleStatementState → ConsoleStatementState → Bool
unfolding statement_transitions statement_eq
statement_listed source target =
    any (λ e. statement_eq source e.0 && statement_eq target e.1) statement_transitions

unfoldable pub transition_session :
    ConsoleSessionState
    → ConsoleSessionState
    → Result (InvalidTransition ConsoleSessionState) ConsoleSessionState
transition_session source target =
    if session_eq source target
    then ok target
    else if session_listed source target
    then ok target
    else raise (illegal_transition source target)

unfoldable pub transition_statement :
    ConsoleStatementState
    → ConsoleStatementState
    → Result (InvalidTransition ConsoleStatementState) ConsoleStatementState
transition_statement source target =
    if statement_eq source target
    then ok target
    else if statement_listed source target
    then ok target
    else raise (illegal_transition source target)

-- A whole life: the targets in order, up to the first that is refused.
unfoldable pub run_session :
    ConsoleSessionState
    → List ConsoleSessionState
    → Result (InvalidTransition ConsoleSessionState) ConsoleSessionState
run_session s [] = ok s
run_session s (t ∷ ts) = transition_session s t >>= λ u. run_session u ts

unfoldable pub run_statement :
    ConsoleStatementState
    → List ConsoleStatementState
    → Result (InvalidTransition ConsoleStatementState) ConsoleStatementState
run_statement s [] = ok s
run_statement s (t ∷ ts) = transition_statement s t >>= λ u. run_statement u ts
