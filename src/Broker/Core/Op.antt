-- ===== src/Broker/Core/Op.antt =====
-- Steps of the broker: state passing with exceptions, which keep the changes that were made before.
use data_ops_studio_v.Base.{
  Bool, true, false, Option, none, some, [], ◌∷◌, ◌++◌, ◌≢◌, Result, raise, ok, if◌then◌else◌,
}
use data_ops_studio_v.Broker.State.{
  ConsoleSessionState, ConsoleStatementState, transition_session, transition_statement,
}
use data_ops_studio_v.Broker.Store.{StoreError}
use data_ops_studio_v.Broker.Core.{
  mailbox_diverged, World, SessionRuntime, Fault, Request, store_error, illegal_session,
  illegal_statement, key_error,
}

abbrev pub Op : Type 0 → Type 0 → Type 0
Op S A = World S → World S × Result Fault A

unfoldable pub after :
    {S A B : Type 0} → World S × Result Fault A → (A → Op S B) → World S × Result Fault B
after (w, raise e) next = (w, raise e)
after (w, ok a) next = next a w

infixl 5 ◌>>=◌ ◌>>◌
unfoldable pub ◌>>=◌ : {S A B : Type 0} → Op S A → (A → Op S B) → Op S B
unfolding after
m >>= next = λ w. after (m w) next

unfoldable pub ◌>>◌ : {S B : Type 0} → Op S (Unit {0}) → Op S B → Op S B
unfolding after
m >> next = λ w. after (m w) (λ _. next)

unfoldable pub return : {S A : Type 0} → A → Op S A
return a w = (w, ok a)

unfoldable pub fail_with : {S A : Type 0} → Fault → Op S A
fail_with e w = (w, raise e)

unfoldable pub fail_if : {S : Type 0} → Bool → Fault → Op S (Unit {0})
unfolding fail_with return
fail_if true e = fail_with e
fail_if false e = return tt

unfoldable pub this : {S : Type 0} → Op S SessionRuntime
this w = (w, ok w.runtime)

unfoldable pub change : {S : Type 0} → (SessionRuntime → SessionRuntime) → Op S (Unit {0})
change f w = (record w { runtime = f w.runtime }, ok tt)

unfoldable pub send : {S : Type 0} → Request → Op S (Unit {0})
send q w = (record w { sent = w.sent ++ q ∷ [] }, ok tt)

abbrev pub lift : {A : Type 0} → Result StoreError A → Result Fault A
lift (raise e) = raise (store_error e)
lift (ok a) = ok a

unfoldable pub in_store : {S A : Type 0} → (S → S × Result StoreError A) → Op S A
in_store f w = let q = f w.store in (record w { store = q.0 }, lift q.1)

abbrev pub wrap : {E A : Type 0} → (E → Fault) → Result E A → Result Fault A
wrap f (raise e) = raise (f e)
wrap f (ok a) = ok a

unfoldable pub session_to :
    {S : Type 0} → ConsoleSessionState → ConsoleSessionState → Op S ConsoleSessionState
session_to old new w = (w, wrap illegal_session (transition_session old new))

unfoldable pub statement_to :
    {S : Type 0} → ConsoleStatementState → ConsoleStatementState → Op S ConsoleStatementState
statement_to old new w = (w, wrap illegal_statement (transition_statement old new))

-- `d[key]`.
unfoldable pub at_key : {S A : Type 0} → Option A → Op S A
unfolding fail_with return
at_key none = fail_with key_error
at_key (some a) = return a

-- A step keeps a property of its session, whether it raises or not, and from such a session it never
-- raises the error of a mailbox that disagrees with its count.
pub record Keeps {S A : Type 0} (P : SessionRuntime → Type 0) (m : Op S A) : Type 0 where
  pub keeps : (w : World S) → P w.runtime → P (m w).0.runtime
  pub agrees : (w : World S) → P w.runtime → (m w).1 ≢ raise mailbox_diverged

wrapped :
    {E A : Type 0} (f : E → Fault)
    → ((e : E) → f e ≢ mailbox_diverged)
    → (r : Result E A) → wrap f r ≢ raise mailbox_diverged
wrapped f other (raise e) same = other e (cc)
wrapped f other (ok a) same = cc

ok_agrees : {A : Type 0} (a : A) → ◌≢◌ {A = Result Fault A} (ok a) (raise mailbox_diverged)
ok_agrees a e = cc

raise_agrees :
    {A B : Type 0} (e : Fault)
    → ◌≢◌ {A = Result Fault A} (raise e) (raise mailbox_diverged)
    → ◌≢◌ {A = Result Fault B} (raise e) (raise mailbox_diverged)
raise_agrees e n same = n (cc)

module _ {S : Type 0} {P : SessionRuntime → Type 0} where
  pub Keeps-bind :
      {A B : Type 0} {m : Op S A} {next : A → Op S B}
      → Keeps P m
      → ((a : A) → Keeps P (next a))
      → Keeps P (m >>= next)
  unfolding ◌>>=◌ after
  Keeps-bind {A = A} {B = B} {m = m} {next = next} first later = record {
    keeps = λ w h. ends (m w) (first.keeps w h);
    agrees = λ w h. goes_on (m w) (first.keeps w h) (first.agrees w h);
  }
    where
      ends : (q : World S × Result Fault A) → P q.0.runtime → P (after q next).0.runtime
      ends (v, raise e) k = k
      ends (v, ok a) k = (later a).keeps v k

      goes_on :
          (q : World S × Result Fault A)
          → P q.0.runtime
          → q.1 ≢ raise mailbox_diverged
          → (after q next).1 ≢ raise mailbox_diverged
      goes_on (v, raise e) k n = raise_agrees e n
      goes_on (v, ok a) k n = (later a).agrees v k

  pub Keeps-then :
      {B : Type 0} {m : Op S (Unit {0})} {next : Op S B}
      → Keeps P m
      → Keeps P next
      → Keeps P (m >> next)
  unfolding ◌>>◌ ◌>>=◌
  Keeps-then first later = Keeps-bind first (λ _. later)

  pub Keeps-if :
      {A : Type 0} {m n : Op S A} (b : Bool) → Keeps P m → Keeps P n → Keeps P (if b then m else n)
  Keeps-if true x y = x
  Keeps-if false x y = y

  pub Keeps-this : Keeps P (this {S = S})
  unfolding this
  Keeps-this = record { keeps = λ w h. h; agrees = λ w h. ok_agrees _ }

  pub Keeps-return : {A : Type 0} (a : A) → Keeps P (return {S = S} a)
  unfolding return
  Keeps-return _ = record { keeps = λ w h. h; agrees = λ w h. ok_agrees _ }

  pub Keeps-fail_with :
      {A : Type 0} (e : Fault) → e ≢ mailbox_diverged → Keeps P (fail_with {S = S} {A = A} e)
  unfolding fail_with
  Keeps-fail_with e other = record { keeps = λ w h. h; agrees = λ w h same. other (cc) }

  pub Keeps-send : (q : Request) → Keeps P (send {S = S} q)
  unfolding send
  Keeps-send _ = record { keeps = λ w h. h; agrees = λ w h. ok_agrees _ }

  pub Keeps-change :
      (f : SessionRuntime → SessionRuntime)
      → ((r : SessionRuntime) → P r → P (f r))
      → Keeps P (change {S = S} f)
  unfolding change
  Keeps-change _ keeps = record { keeps = λ w h. keeps w.runtime h; agrees = λ w h. ok_agrees _ }

  pub Keeps-in_store : {A : Type 0} (f : S → S × Result StoreError A) → Keeps P (in_store f)
  unfolding in_store
  Keeps-in_store f = record { keeps = λ w h. h; agrees = λ w h. lifted (f w.store).1 }
    where
      lifted : {A : Type 0} (r : Result StoreError A) → lift r ≢ raise mailbox_diverged
      lifted (raise e) same = cc
      lifted (ok a) same = cc

  pub Keeps-fail_if : (e : Fault) (b : Bool) → e ≢ mailbox_diverged → Keeps P (fail_if {S = S} b e)
  unfolding fail_if
  Keeps-fail_if e true other = Keeps-fail_with e other
  Keeps-fail_if e false other = Keeps-return tt

  pub Keeps-at_key : {A : Type 0} (o : Option A) → Keeps P (at_key {S = S} o)
  unfolding at_key
  Keeps-at_key none = Keeps-fail_with key_error (λ e. cc)
  Keeps-at_key (some a) = Keeps-return a

  pub Keeps-session_to : (old new : ConsoleSessionState) → Keeps P (session_to {S = S} old new)
  unfolding session_to
  Keeps-session_to old new = record {
    keeps = λ w h. h;
    agrees = λ w h. wrapped illegal_session (λ e n. cc) (transition_session old new);
  }

  pub Keeps-statement_to :
      (old new : ConsoleStatementState) → Keeps P (statement_to {S = S} old new)
  unfolding statement_to
  Keeps-statement_to old new = record {
    keeps = λ w h. h;
    agrees = λ w h. wrapped illegal_statement (λ e n. cc) (transition_statement old new);
  }
