-- ===== src/Broker/Core/Known.antt =====
-- What a session remembers of a request, whatever steps it takes, app/broker/core.py.
use data_ops_studio_v.Base.{
  ℕ, ◌≡◌, ◌⊎◌, refl, sym, ap, ◌∙◌, String, Bool, true, false, Option, none, some, List, lookup,
  lookup-insert, str_eq, str_eq_iff, is_some, ok, raise, Result, Bool-cases, Option-cases, inl, inr,
}
use data_ops_studio_v.Broker.Store.{ConsoleStatement}
use data_ops_studio_v.Broker.Core.{
  World, SessionRuntime, BrokerConfig, BrokerStore, Tools, LaneCommand, execute, Fault,
}
use data_ops_studio_v.Broker.Core.Op.{
  Op, ◌>>=◌, ◌>>◌, after, this, change, fail_with, Keeps, Keeps-bind, Keeps-then, Keeps-this,
  Keeps-return, Keeps-fail_with, Keeps-fail_if, Keeps-in_store, Keeps-at_key,
}
use data_ops_studio_v.Broker.Core.Changes.{put_nowait}
use data_ops_studio_v.Broker.Core.Client.{
  Submission, require_epoch, check_arguments, check_open, create_in_store, note_answer,
  register_failed, queue_execute, queued_execute, registered, created, submit_new, replay,
  submit_or_replay, submit,
}
use data_ops_studio_v.Broker.Core.Answers.{Moves, change-Moves}
use data_ops_studio_v.Broker.Core.Steady.{
  IsSteady, with_statement-Remembers, Keeps-record_event, Keeps-put_statement,
  Keeps-set_statement_state,
}

-- The request has a statement, and the session has the statement.
abbrev pub Knows : (request_id statement_id : String) → SessionRuntime → Type 0
Knows request_id statement_id r =
    (lookup request_id r.requests ≡ some statement_id)
    × (is_some (lookup statement_id r.statements) ≡ true)

pub IsSteady-Knows : (request_id statement_id : String) → IsSteady (Knows request_id statement_id)
IsSteady-Knows request_id statement_id = record {
  steady = λ r r' a b c d e h. (ap (lookup request_id) e.0 ∙ h.0, e.1 statement_id h.1);
  stops = λ r h. h;
}

-- The same, while another request is new.
abbrev Meets : (request_id statement_id new_id : String) → SessionRuntime → Type 0
Meets request_id statement_id new_id r =
    Knows request_id statement_id r × (lookup new_id r.requests ≡ none)

IsSteady-Meets :
    (request_id statement_id new_id : String) → IsSteady (Meets request_id statement_id new_id)
IsSteady-Meets request_id statement_id new_id = record {
  steady = λ r r' a b c d e h.
      ((ap (lookup request_id) e.0 ∙ h.0.0, e.1 statement_id h.0.1), ap (lookup new_id) e.0 ∙ h.1);
  stops = λ r h. h;
}

pub Keeps-Moves :
    {S A : Type 0} {P : SessionRuntime → Type 0} {m : Op S A} → Keeps P m → Moves P P m
Keeps-Moves k = record { moves = k.keeps }

pub Moves-bind :
    {S A B : Type 0} {P Q R : SessionRuntime → Type 0} {m : Op S A} {next : A → Op S B}
    → Moves P Q m
    → ((r : SessionRuntime) → Q r → R r)
    → ((a : A) → Moves Q R (next a))
    → Moves P R (m >>= next)
unfolding ◌>>=◌ after
Moves-bind {S = S} {A = A} {Q = Q} {R = R} {m = m} {next = next} first weaker later = record {
  moves = λ w h. ends (m w) (first.moves w h);
}
  where
    ends : (q : World S × Result Fault A) → Q q.0.runtime → R (after q next).0.runtime
    ends (v, raise e) k = weaker v.runtime k
    ends (v, ok a) k = (later a).moves v k

pub Moves-then :
    {S B : Type 0} {P Q R : SessionRuntime → Type 0} {m : Op S (Unit {0})} {next : Op S B}
    → Moves P Q m
    → ((r : SessionRuntime) → Q r → R r)
    → Moves Q R next
    → Moves P R (m >> next)
unfolding ◌>>◌ ◌>>=◌
Moves-then first weaker later = Moves-bind first weaker (λ _. later)

module _ {S : Type 0} (api : BrokerStore S) (config : BrokerConfig) (tools : Tools)
    (request_id statement_id : String) where
  abbrev K : SessionRuntime → Type 0
  K = Knows request_id statement_id

  steady : IsSteady K
  steady = IsSteady-Knows request_id statement_id

  pub Keeps-require_epoch :
      (P : SessionRuntime → Type 0) (epoch : ℕ) → Keeps P (require_epoch api config tools epoch)
  unfolding require_epoch
  Keeps-require_epoch P epoch = Keeps-bind Keeps-this (λ r. Keeps-fail_if _ _ (λ e. cc))

  Moves-queue_execute : (id : String) → Moves K K (queue_execute api config tools id)
  unfolding queue_execute queued_execute ◌>>=◌ after this change fail_with
  Moves-queue_execute id = record {
    moves = λ w h. queued (put_nowait config.mailbox_size (execute id) w.runtime.mailbox) w h;
  }
    where
      queued :
          (o : Option (List LaneCommand)) (w : World S)
          → K w.runtime
          → K (queued_execute api config tools o w).0.runtime
      queued none w h = h
      queued (some mailbox) w h = h

  Moves-registered :
      (q : Submission) (statement : ConsoleStatement) (id : String)
      → Moves K K (registered api config tools q statement id)
  unfolding registered
  Moves-registered q statement id =
      Moves-then (change-Moves _ (λ r h. h)) (λ r h. h)
        (Moves-then (Keeps-Moves (Keeps-put_statement api config K steady _)) (λ r h. h)
          (Moves-then (Moves-queue_execute _) (λ r h. h)
            (Moves-then (Keeps-Moves (Keeps-record_event api config K steady _ _ _)) (λ r h. h)
              (Keeps-Moves (Keeps-return _)))))

  Moves-created :
      (q : Submission) (answer : ConsoleStatement × Bool)
      → Moves K K (created api config tools q answer)
  unfolding created register_failed
  Moves-created q (statement, true) = Keeps-Moves (Keeps-return _)
  Moves-created q (statement, false) =
      elim (Option-cases (tools.register statement q.page_size q.max_result_rows)) [
        | inl none_made ↦
            rw (none_made, created)
              (Keeps-Moves (
                Keeps-bind (Keeps-set_statement_state api config K steady _ _ _ _ _ _) (λ updated.
                  Keeps-then (Keeps-record_event api config K steady _ _ _)
                    (Keeps-fail_with _ (λ e. cc)))))
        | inr (id, made) ↦ rw (made, created) (Moves-registered q statement id)
      ]

  -- The answer to a new request leaves the others as they are.
  Moves-note_answer :
      (new_id : String) (statement : ConsoleStatement)
      → Moves (Meets request_id statement_id new_id) K (note_answer {S = S} new_id statement)
  unfolding note_answer
  Moves-note_answer new_id statement = record {
    moves = λ w h. noted w h (Bool-cases (str_eq new_id request_id));
  }
    where
      noted :
          (w : World S)
          → Meets request_id statement_id new_id w.runtime
          → ((str_eq new_id request_id ≡ true) ⊎ (str_eq new_id request_id ≡ false))
          → K (note_answer new_id statement w).0.runtime
      noted w h (inl same) =
          let e : new_id ≡ request_id = (str_eq_iff new_id request_id).0 same in
          let clash : none ≡ some statement_id =
            sym h.1 ∙ ap (λ x. lookup x w.runtime.requests) e ∙ h.0.0 in
          absurd (cc)
      noted w h (inr other) = (
        lookup-insert new_id request_id statement.id w.runtime.requests ∙ rw other h.0.0,
        (with_statement-Remembers statement w.runtime).1 statement_id h.0.1,
      )

  Moves-submit_new :
      (q : Submission)
      → Moves (Meets request_id statement_id q.client_request_id) K (submit_new api config tools q)
  unfolding submit_new check_open create_in_store
  Moves-submit_new q =
      Moves-then
        (Keeps-Moves (
          Keeps-bind Keeps-this
            (λ r. Keeps-then (Keeps-fail_if _ _ (λ e. cc)) (Keeps-fail_if _ _ (λ e. cc)))))
        (λ r h. h.0)
        (Moves-bind (Keeps-Moves (Keeps-bind Keeps-this (λ r. Keeps-in_store _))) (λ r h. h.0)
          (λ answer.
            Moves-then (Moves-note_answer q.client_request_id answer.0) (λ r h. h)
              (Moves-created q answer)))

  Moves-submit_or_replay :
      (q : Submission) (w : World S) (o : Option String)
      → lookup q.client_request_id w.runtime.requests ≡ o
      → K w.runtime
      → K (submit_or_replay api config tools q o w).0.runtime
  unfolding submit_or_replay replay
  Moves-submit_or_replay q w none e h = (Moves-submit_new q).moves w (h, e)
  Moves-submit_or_replay q w (some id) e h =
      (let kept : Keeps K (replay api config tools id) =
            Keeps-bind Keeps-this (λ r. Keeps-bind (Keeps-at_key _) (λ s. Keeps-return _)) in
          kept).keeps
        w h

  Moves-chosen :
      (q : Submission)
      → Moves K K (
          this {S = S} >>= λ r.
          submit_or_replay api config tools q (lookup q.client_request_id r.requests))
  unfolding ◌>>=◌ after this
  Moves-chosen q = record { moves = λ w h. Moves-submit_or_replay q w _ refl h }

  pub Moves-submit : (q : Submission) → Moves K K (submit api config tools q)
  unfolding submit check_arguments
  Moves-submit q =
      Moves-then
        (Keeps-Moves (Keeps-then (Keeps-fail_if _ _ (λ e. cc)) (Keeps-fail_if _ _ (λ e. cc))))
        (λ r h. h)
        (Moves-then (Keeps-Moves (Keeps-require_epoch K q.epoch)) (λ r h. h) (Moves-chosen q))
