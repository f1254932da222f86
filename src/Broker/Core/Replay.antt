-- ===== src/Broker/Core/Replay.antt =====
-- A statement that is submitted again, app/broker/core.py: the answer of the first time.
use data_ops_studio_v.Base.{
  ℕ, ◌≡◌, refl, ◌∙◌, ap, subst, String, Bool, true, false, Option, none, some, List, lookup,
  lookup-insert, str_eq_refl, ok, ◌==◌, arith,
}
use data_ops_studio_v.Broker.Store.{ConsoleStatement}
use data_ops_studio_v.Broker.Core.{
  World, SessionRuntime, BrokerConfig, BrokerStore, Tools, LaneCommand, execute, SubmitReceipt,
}
use data_ops_studio_v.Broker.Core.Op.{
  ◌>>=◌, ◌>>◌, after, return, this, change, fail_with, at_key, in_store, fail_if, Keeps, Keeps-bind,
  Keeps-this, Keeps-then, Keeps-fail_if,
}
use data_ops_studio_v.Broker.Core.Changes.{put_nowait, put_statement, save_statement, record_event}
use data_ops_studio_v.Broker.Core.Client.{
  Submission, require_epoch, check_arguments, note_answer, register_failed, queue_execute,
  queued_execute, registered, created, submit_new, replay, submit_or_replay, submit,
}
use data_ops_studio_v.Broker.Core.Answers.{
  Holds, Noted, Moves, Answers, Anything, Answers-bind, Answers-then, Answers-return,
  Answers-fail_with, change-Moves, forget,
}

module _ {S : Type 0} (api : BrokerStore S) (config : BrokerConfig) (tools : Tools) where
  Holds-put_statement :
      (request_id : String) (statement : ConsoleStatement) (w : World S)
      → lookup request_id w.runtime.requests ≡ some statement.id
      → Holds request_id statement (put_statement api config statement w).0.runtime
  unfolding put_statement save_statement in_store ◌>>◌ after change
  Holds-put_statement request_id statement w h = (
    h,
    lookup-insert statement.id statement.id statement w.runtime.statements
        ∙ rw (str_eq_refl statement.id) refl,
  )

  queued_execute-Holds :
      (request_id : String) (statement : ConsoleStatement) (o : Option (List LaneCommand))
      (w : World S)
      → Holds request_id statement w.runtime
      → Holds request_id statement (queued_execute api config tools o w).0.runtime
  unfolding queued_execute change fail_with
  queued_execute-Holds request_id statement none w h = h
  queued_execute-Holds request_id statement (some mailbox) w h = h

  Holds-record_event :
      (request_id : String) (statement event_of : ConsoleStatement) (event_type : String) (now : ℕ)
      (w : World S)
      → Holds request_id statement w.runtime
      → Holds request_id statement (record_event api config event_of event_type now w).0.runtime
  unfolding record_event in_store
  Holds-record_event request_id statement event_of event_type now w h = h

  Holds-queue_execute :
      (request_id : String) (statement : ConsoleStatement) (id : String) (w : World S)
      → Holds request_id statement w.runtime
      → Holds request_id statement (queue_execute api config tools id w).0.runtime
  unfolding queue_execute ◌>>=◌ after this
  Holds-queue_execute request_id statement id w h =
      queued_execute-Holds request_id statement
        (put_nowait config.mailbox_size (execute id) w.runtime.mailbox) w h

  Answers-registered :
      (q : Submission) (request_id : String) (statement : ConsoleStatement) (id : String)
      → Answers request_id (Holds request_id statement) (registered api config tools q statement id)
  unfolding registered
  Answers-registered q request_id statement id =
      let saved = record statement { result_set_id = some id } in
      Answers-then (change-Moves {Q = Holds request_id statement} _ (λ r h. h)) (
        Answers-then (record { moves = λ w h. Holds-put_statement request_id saved w h.0 })
          (Answers-then
            (record { moves = λ w h. Holds-queue_execute request_id saved saved.id w h })
            (Answers-then
              (record {
                moves = λ w h. Holds-record_event request_id saved saved "submitted" q.now w h;
              })
              (Answers-return _))))

  Answers-created :
      (q : Submission) (request_id : String) (answer : ConsoleStatement × Bool)
      → Answers request_id (Holds request_id answer.0) (created api config tools q answer)
  unfolding created register_failed
  Answers-created q request_id (statement, true) = Answers-return _
  Answers-created q request_id (statement, false) =
      either (tools.register statement q.page_size q.max_result_rows)
    where
      either :
          (o : Option String)
          → Answers request_id (Holds request_id statement) (elim o [
            | none ↦ register_failed api config tools statement q.now
            | some id ↦ registered api config tools q statement id
          ])
      either none = Answers-bind (forget _) (λ u. Answers-then (forget _) (Answers-fail_with _))
      either (some id) = Answers-registered q request_id statement id

  Holds-note_answer :
      (request_id : String) (statement : ConsoleStatement) (w : World S)
      → Holds request_id statement (note_answer request_id statement w).0.runtime
  unfolding note_answer
  Holds-note_answer request_id statement w = (
    lookup-insert request_id request_id statement.id w.runtime.requests
        ∙ rw (str_eq_refl request_id) refl,
    lookup-insert statement.id statement.id statement w.runtime.statements
        ∙ rw (str_eq_refl statement.id) refl,
  )

  Answers-submit_new :
      (q : Submission) → Answers q.client_request_id Anything (submit_new api config tools q)
  unfolding submit_new
  Answers-submit_new q = Answers-then (forget _) (
      Answers-bind (forget _) (λ answer.
        Answers-then (record { moves = λ w h. Holds-note_answer q.client_request_id answer.0 w })
          (Answers-created q q.client_request_id answer)))

  -- The requests of the session before the call.
  abbrev IsNew : Submission → SessionRuntime → Type 0
  IsNew q r = lookup q.client_request_id r.requests ≡ none

  Answers-submit_or_replay :
      (q : Submission) (w : World S) (o : Option String)
      → o ≡ none
      → Noted q.client_request_id (submit_or_replay api config tools q o w)
  unfolding submit_or_replay
  Answers-submit_or_replay q w none e = (Answers-submit_new q).notes w tt
  Answers-submit_or_replay q w (some id) e = absurd (let no : some id ≡ none = e in cc)

  Answers-first :
      (q : Submission)
      → Answers q.client_request_id (IsNew q) (
          this {S = S} >>= λ r.
          submit_or_replay api config tools q (lookup q.client_request_id r.requests))
  unfolding ◌>>=◌ after this
  Answers-first q = record { notes = λ w h. Answers-submit_or_replay q w _ h }

  check_arguments-IsNew :
      (q : Submission) → Moves (IsNew q) (IsNew q) (check_arguments api config tools q)
  unfolding check_arguments
  check_arguments-IsNew q = record { moves = kept.keeps }
    where
      kept : Keeps {S = S} (IsNew q) (check_arguments api config tools q)
      kept = Keeps-then (Keeps-fail_if _ _ (λ e. cc)) (Keeps-fail_if _ _ (λ e. cc))

  require_epoch-IsNew :
      (q : Submission) → Moves (IsNew q) (IsNew q) (require_epoch api config tools q.epoch)
  unfolding require_epoch
  require_epoch-IsNew q = record { moves = kept.keeps }
    where
      kept : Keeps {S = S} (IsNew q) (require_epoch api config tools q.epoch)
      kept = Keeps-bind Keeps-this (λ r. Keeps-fail_if _ _ (λ e. cc))

  pub Answers-submit :
      (q : Submission) → Answers q.client_request_id (IsNew q) (submit api config tools q)
  unfolding submit
  Answers-submit q =
      Answers-then (check_arguments-IsNew q)
        (Answers-then (require_epoch-IsNew q) (Answers-first q))

  replay_lem :
      (w : World S) (id : String) (statement : ConsoleStatement)
      → lookup id w.runtime.statements ≡ some statement
      → replay api config tools id w
        ≡ (w, ok (record { statement = statement; deduplicated = true }))
  unfolding replay ◌>>=◌ after this at_key return
  replay_lem w id statement there = rw there refl

  -- A later call under an id that the session knows, with arguments that are let through.
  pub replayed :
      (w : World S) (q : Submission) (id : String) (statement : ConsoleStatement)
      → lookup q.client_request_id w.runtime.requests ≡ some id
      → lookup id w.runtime.statements ≡ some statement
      → check_arguments api config tools q w ≡ (w, ok tt)
      → q.epoch ≡ w.runtime.session.epoch
      → submit api config tools q w
        ≡ (w, ok (record { statement = statement; deduplicated = true }))
  unfolding submit require_epoch submit_or_replay ◌>>◌ ◌>>=◌ after this fail_if return
  replayed w q id statement under there fine current =
      let same : (q.epoch == w.runtime.session.epoch) ≡ true = ground arith in
      rw (fine, same, under) (replay_lem w id statement there)

  -- A statement is submitted under an id that the session does not know, and accepted. Whatever else
  -- a call under that id carries that is made in the state which the first call leaves, before any
  -- other step, if its arguments are let through and its epoch is the session's: it returns the
  -- statement of the first answer, marked as a duplicate, and changes nothing.
  pub submit_again :
      (w w' : World S) (q again : Submission) (receipt : SubmitReceipt)
      → lookup q.client_request_id w.runtime.requests ≡ none
      → submit api config tools q w ≡ (w', ok receipt)
      → again.client_request_id ≡ q.client_request_id
      → check_arguments api config tools again w' ≡ (w', ok tt)
      → again.epoch ≡ w'.runtime.session.epoch
      → submit api config tools again w'
        ≡ (w', ok (record { statement = receipt.statement; deduplicated = true }))
  submit_again w w' q again receipt new done same fine current =
      let held : Noted q.client_request_id (w', ok receipt) =
        subst (Noted q.client_request_id) done ((Answers-submit q).notes w new) in
      replayed w' again receipt.statement.id receipt.statement
        (ap (λ id. lookup id w'.runtime.requests) same ∙ held.0) held.1 fine current
