-- ===== src/Broker/Store/Requests.antt =====
-- `create_statement` of `MemoryBrokerStore` in app/broker/store.py: idempotent receipts and the
-- numbering of statements within a session.
use data_ops_studio_v.Base.{
  ℕ, ◌+◌, ◌<◌, ◌≤◌, ◌≡◌, refl, ap, String, true, false, none, some, List, [], ◌∷◌, ◌++◌, ◌&&◌,
  if◌then◌else◌, str_eq, Dict, insert, values, Fresh, Bool-cases, Option-cases, inl, inr, arith,
  All, str_eq_refl, lookup-insert,
}
use data_ops_studio_v.Broker.State.{ConsoleStatementState}
use data_ops_studio_v.Broker.Store.{
  ConsoleSession, ConsoleStatement, StatementRequest, new_statement,
}
use data_ops_studio_v.Broker.Store.Memory.{
  MemoryBrokerStore, find_request, max_seq, create_statement, get_statement,
}

values-insert-Fresh :
    {V : Type 0} (k : String) (v : V) (d : Dict V)
    → Fresh k d
    → values (insert k v d) ≡ values d ++ v ∷ []
unfolding insert
values-insert-Fresh k v [] f = refl
values-insert-Fresh k v ((j, w) ∷ d) f = rw f.0 (ap (◌∷◌ w) (values-insert-Fresh k v d f.1))

find_request-snoc :
    (sid rid : String) (ss : List ConsoleStatement) (s : ConsoleStatement)
    → find_request sid rid ss ≡ none
    → str_eq s.session_id sid && str_eq s.client_request_id rid ≡ true
    → find_request sid rid (ss ++ s ∷ []) ≡ some s
unfolding find_request
find_request-snoc sid rid [] s miss hit = rw hit
find_request-snoc sid rid (t ∷ ss) s miss hit =
    elim (Bool-cases (str_eq t.session_id sid && str_eq t.client_request_id rid)) [
      | inl here ↦ let e = (rw here at miss) in cc
      | inr there ↦ rw there (find_request-snoc sid rid ss s (rw there at miss) hit)
    ]

abbrev next_statement : MemoryBrokerStore → ConsoleSession → StatementRequest → ConsoleStatement
next_statement m session r = new_statement session r (1 + max_seq session.id (values m.statements))

create_found :
    (m : MemoryBrokerStore) (session : ConsoleSession) (r : StatementRequest) (s : ConsoleStatement)
    → find_request session.id r.client_request_id (values m.statements) ≡ some s
    → create_statement m session r ≡ (m, (s, true))
unfolding create_statement
create_found m session r s old = rw (old, create_statement)

create_new :
    (m : MemoryBrokerStore) (session : ConsoleSession) (r : StatementRequest)
    → find_request session.id r.client_request_id (values m.statements) ≡ none
    → create_statement m session r ≡ (
      record m { statements = insert r.statement_id (next_statement m session r) m.statements },
      (next_statement m session r, false),
    )
unfolding create_statement new_statement
create_new m session r new = rw (new, create_statement)

found_again :
    (m : MemoryBrokerStore) (session : ConsoleSession) (r : StatementRequest)
    → Fresh r.statement_id m.statements
    → find_request session.id r.client_request_id (values m.statements) ≡ none
    → find_request session.id r.client_request_id
        (values (insert r.statement_id (next_statement m session r) m.statements))
      ≡ some (next_statement m session r)
unfolding new_statement
found_again m session r fresh new =
    rw (values-insert-Fresh r.statement_id (next_statement m session r) m.statements fresh) (
      find_request-snoc session.id r.client_request_id (values m.statements)
        (next_statement m session r) new
        (rw (str_eq_refl session.id, str_eq_refl r.client_request_id)))

-- Whatever a request carries the second time, resubmitting it under the same request id gives the
-- statement of the first time, marked as a duplicate, and leaves the store as it was. The id drawn
-- for the first statement is new.
pub create_statement_twice :
    (m : MemoryBrokerStore) (session : ConsoleSession) (r again : StatementRequest)
    → Fresh r.statement_id m.statements
    → again.client_request_id ≡ r.client_request_id
    → let (m', receipt) = create_statement m session r in
      create_statement m' session again ≡ (m', (receipt.0, true))
create_statement_twice m session r again fresh same =
    elim (Option-cases (find_request session.id r.client_request_id (values m.statements))) [
      | inl new ↦
          rw (create_new m session r new)
            (create_found _ session again _ (rw same (found_again m session r fresh new)))
      | inr (s, old) ↦
          rw (create_found m session r s old) (create_found m session again s (rw same old))
    ]

max_seq-head :
    (sid : String) (s : ConsoleStatement) (ss : List ConsoleStatement)
    → (max_seq sid ss ≤ max_seq sid (s ∷ ss))
      × (str_eq s.session_id sid ≡ true → s.seq ≤ max_seq sid (s ∷ ss))
unfolding max_seq
max_seq-head sid s ss = (ground arith, λ h. rw h (omega arith))

seq-le-max_seq :
    (sid : String) (n : ℕ) (ss : List ConsoleStatement)
    → max_seq sid ss < n
    → All (λ s. str_eq s.session_id sid ≡ true → s.seq < n) ss
seq-le-max_seq sid n [] h = tt
seq-le-max_seq sid n (s ∷ ss) h =
    let (tail, head) = max_seq-head sid s ss in
    (λ e. omega (arith, head e), seq-le-max_seq sid n ss (omega arith))

next_seq :
    (m : MemoryBrokerStore) (session : ConsoleSession) (r : StatementRequest)
    → max_seq session.id (values m.statements) < (next_statement m session r).seq
unfolding new_statement
next_seq m session r = omega arith

-- A request id that the session has not used yet gives a new statement in state `accepted`. Its
-- number is above that of every statement of the session, it is what its id then names, and every
-- other id names what it named before.
pub create_statement_fresh :
    (m : MemoryBrokerStore) (session : ConsoleSession) (r : StatementRequest) (id : String)
    → find_request session.id r.client_request_id (values m.statements) ≡ none
    → let (m', (s, duplicate)) = create_statement m session r in
      (duplicate ≡ false)
      × (s.state ≡ ConsoleStatementState.accepted)
      × All (λ t. str_eq t.session_id session.id ≡ true → t.seq < s.seq) (values m.statements)
      × (get_statement m' id ≡ (if str_eq r.statement_id id then some s else get_statement m id))
unfolding get_statement
create_statement_fresh m session r id new = rw (create_new m session r new) (
  refl,
  unfold new_statement in refl,
  seq-le-max_seq session.id _ (values m.statements) (next_seq m session r),
  lookup-insert r.statement_id id (next_statement m session r) m.statements,
)
