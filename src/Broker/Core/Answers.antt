-- ===== src/Broker/Core/Answers.antt =====
-- What a step of app/broker/core.py answers to a client, and what the session holds of it.
use data_ops_studio_v.Base.{◌≡◌, String, some, lookup, Result, raise, ok}
use data_ops_studio_v.Broker.Store.{ConsoleStatement}
use data_ops_studio_v.Broker.Core.{World, SessionRuntime, SubmitReceipt, Fault}
use data_ops_studio_v.Broker.Core.Op.{Op, ◌>>=◌, ◌>>◌, after, return, change, fail_with}

-- The session has the statement, under its id and under the request's.
abbrev pub Holds : String → ConsoleStatement → SessionRuntime → Type 0
Holds request_id statement r =
    (lookup request_id r.requests ≡ some statement.id)
    × (lookup statement.id r.statements ≡ some statement)

-- What `submit` returns, the session holds.
abbrev pub Noted : {S : Type 0} → String → World S × Result Fault SubmitReceipt → Type 0
Noted request_id (w, raise e) = Unit
Noted request_id (w, ok receipt) = Holds request_id receipt.statement w.runtime

-- What a step makes of its session, and what a step answers.
pub record Moves {S A : Type 0} (P Q : SessionRuntime → Type 0) (m : Op S A) : Type 0 where
  pub moves : (w : World S) → P w.runtime → Q (m w).0.runtime

pub record Answers {S : Type 0} (request_id : String) (P : SessionRuntime → Type 0)
    (m : Op S SubmitReceipt) : Type 0 where
  pub notes : (w : World S) → P w.runtime → Noted request_id (m w)

raised :
    {S A : Type 0} (request_id : String) (v : World S) (e : Fault) (next : A → Op S SubmitReceipt)
    → Noted request_id (after (v, raise e) next)
unfolding after
raised request_id v e next = tt

returned :
    {S A : Type 0} (request_id : String) (v : World S) (a : A) (next : A → Op S SubmitReceipt)
    → Noted request_id (next a v)
    → Noted request_id (after (v, ok a) next)
unfolding after
returned request_id v a next h = h

pub Answers-bind :
    {S A : Type 0} {request_id : String} {P Q : SessionRuntime → Type 0} {m : Op S A}
    {next : A → Op S SubmitReceipt}
    → Moves P Q m
    → ((a : A) → Answers request_id Q (next a))
    → Answers request_id P (m >>= next)
unfolding ◌>>=◌
Answers-bind {S = S} {A = A} {request_id = request_id} {Q = Q} {m = m} {next = next} first later =
    record { notes = λ w h. goes_on (m w) (first.moves w h) }
  where
    goes_on : (q : World S × Result Fault A) → Q q.0.runtime → Noted request_id (after q next)
    goes_on (v, raise e) k = raised request_id v e next
    goes_on (v, ok a) k = returned request_id v a next ((later a).notes v k)

pub Answers-then :
    {S : Type 0} {request_id : String} {P Q : SessionRuntime → Type 0} {m : Op S (Unit {0})}
    {next : Op S SubmitReceipt}
    → Moves P Q m
    → Answers request_id Q next
    → Answers request_id P (m >> next)
unfolding ◌>>◌ ◌>>=◌
Answers-then first later = Answers-bind first (λ _. later)

pub Answers-return :
    {S : Type 0} {request_id : String} (receipt : SubmitReceipt)
    → Answers {S = S} request_id (Holds request_id receipt.statement) (return receipt)
unfolding return
Answers-return receipt = record { notes = λ w h. h }

pub Answers-fail_with :
    {S : Type 0} {request_id : String} {P : SessionRuntime → Type 0} (e : Fault)
    → Answers {S = S} request_id P (fail_with e)
unfolding fail_with
Answers-fail_with e = record { notes = λ w h. tt }

pub change-Moves :
    {S : Type 0} {P Q : SessionRuntime → Type 0} (f : SessionRuntime → SessionRuntime)
    → ((r : SessionRuntime) → P r → Q (f r))
    → Moves {S = S} P Q (change f)
unfolding change
change-Moves f into = record { moves = λ w h. into w.runtime h }

-- Nothing is known.
abbrev pub Anything : SessionRuntime → Type 0
Anything r = Unit

pub forget : {S A : Type 0} {P : SessionRuntime → Type 0} (m : Op S A) → Moves P Anything m
forget m = record { moves = λ w h. tt }
