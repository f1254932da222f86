-- ===== src/Broker/Core/Later.antt =====
-- A statement that is submitted again after other steps of the session, app/broker/core.py.
use data_ops_studio_v.Base.{
  ◌≡◌, ◌∙◌, ap, sym, subst, String, true, some, none, List, [], ◌∷◌, lookup, is_some, ok,
  Option-cases, inl, inr,
}
use data_ops_studio_v.Broker.Store.{ConsoleStatement}
use data_ops_studio_v.Broker.Core.{World, BrokerConfig, BrokerStore, Tools, SubmitReceipt}
use data_ops_studio_v.Broker.Core.Op.{Keeps-bind, Keeps-return}
use data_ops_studio_v.Broker.Core.Client.{Submission, check_arguments, submit}
use data_ops_studio_v.Broker.Core.Calls.{
  SessionCall, submits, cancels, closes, shuts_down, cannot_connect, connects, gets, counts, drains,
  executes_statement, streams, notes, finishes, begins_closing, ends_closing, cancel_done,
  destroy_done, timer, call, run,
}
use data_ops_studio_v.Broker.Core.SteadyLane.{
  Keeps-connect_failed, Keeps-connected, Keeps-execute_statement, Keeps-stream_statement,
  Keeps-note_ending, Keeps-finish_statement, Keeps-closing, Keeps-closed, Keeps-cancel_done,
  Keeps-destroy_done,
}
use data_ops_studio_v.Broker.Core.Answers.{Noted, Moves}
use data_ops_studio_v.Broker.Core.Replay.{replayed, Answers-submit}
use data_ops_studio_v.Broker.Core.Known.{
  Knows, IsSteady-Knows, Keeps-Moves, Moves-bind, Moves-submit,
}
use data_ops_studio_v.Broker.Core.Remembered.{
  Keeps-cancel, Keeps-queue_close_locked, Keeps-close, Keeps-lane_get, Keeps-lane_count,
  Keeps-take_pending_close, Keeps-run_timers,
}

module _ {S : Type 0} (api : BrokerStore S) (config : BrokerConfig) (tools : Tools) where
  Moves-call :
      (request_id statement_id : String) (c : SessionCall)
      → Moves
          (Knows request_id statement_id)
          (Knows request_id statement_id)
          (call api config tools c)
  unfolding call
  Moves-call rid sid (submits q) =
      Moves-bind (Moves-submit api config tools rid sid q) (λ r h. h)
        (λ a. Keeps-Moves (Keeps-return _))
  Moves-call rid sid (cancels id epoch now) =
      Keeps-Moves
        (Keeps-bind (Keeps-cancel api config tools rid sid id epoch now) (λ a. Keeps-return _))
  Moves-call rid sid (closes epoch reason now) =
      Keeps-Moves (Keeps-close api config tools rid sid epoch reason now)
  Moves-call rid sid (shuts_down now) =
      Keeps-Moves (Keeps-queue_close_locked api config tools rid sid "shutdown" true now)
  Moves-call rid sid (cannot_connect code now) =
      Keeps-Moves (Keeps-connect_failed api config _ (IsSteady-Knows rid sid) code now)
  Moves-call rid sid (connects marker now) =
      Keeps-Moves (Keeps-connected api config _ (IsSteady-Knows rid sid) marker now)
  Moves-call rid sid gets = Keeps-Moves (Keeps-lane_get api config tools rid sid)
  Moves-call rid sid counts = Keeps-Moves (Keeps-lane_count api config tools rid sid)
  Moves-call rid sid drains =
      Keeps-Moves
        (Keeps-bind (Keeps-take_pending_close api config tools rid sid) (λ a. Keeps-return _))
  Moves-call rid sid (executes_statement id now) =
      Keeps-Moves (Keeps-execute_statement api config _ (IsSteady-Knows rid sid) id now)
  Moves-call rid sid (streams id) =
      Keeps-Moves (Keeps-stream_statement api config _ (IsSteady-Knows rid sid) id)
  Moves-call rid sid (notes e) =
      Keeps-Moves (Keeps-note_ending api config _ (IsSteady-Knows rid sid) e)
  Moves-call rid sid (finishes id e reason code summary now) =
      Keeps-Moves
        (Keeps-finish_statement api config _ (IsSteady-Knows rid sid) id e reason code summary now)
  Moves-call rid sid (begins_closing now) =
      Keeps-Moves (Keeps-closing api config _ (IsSteady-Knows rid sid) now)
  Moves-call rid sid (ends_closing reason now) =
      Keeps-Moves (Keeps-closed api config _ (IsSteady-Knows rid sid) reason now)
  Moves-call rid sid (cancel_done failed now) =
      Keeps-Moves (Keeps-cancel_done api config _ (IsSteady-Knows rid sid) failed now)
  Moves-call rid sid (destroy_done failed now) =
      Keeps-Moves (Keeps-destroy_done api config _ (IsSteady-Knows rid sid) failed now)
  Moves-call rid sid (timer now) = Keeps-Moves (Keeps-run_timers api config tools rid sid now)

  run-Knows :
      (request_id statement_id : String) (calls : List SessionCall) (w : World S)
      → Knows request_id statement_id w.runtime
      → Knows request_id statement_id (run api config tools calls w).runtime
  unfolding run
  run-Knows rid sid [] w h = h
  run-Knows rid sid (c ∷ cs) w h =
      run-Knows rid sid cs (call api config tools c w).0 ((Moves-call rid sid c).moves w h)

  -- A statement is submitted under an id that the session does not know, and accepted, and then the
  -- session goes through any calls. Whatever else a call under that id then carries, if its arguments
  -- are let through and its epoch is the session's: it returns what has become of the first
  -- statement, as the session holds it under its id, marked as a duplicate, and changes nothing.
  pub submit_again_later :
      (w w' : World S) (q again : Submission) (receipt : SubmitReceipt) (calls : List SessionCall)
      → lookup q.client_request_id w.runtime.requests ≡ none
      → submit api config tools q w ≡ (w', ok receipt)
      → again.client_request_id ≡ q.client_request_id
      → check_arguments api config tools again (run api config tools calls w')
        ≡ (run api config tools calls w', ok tt)
      → again.epoch ≡ (run api config tools calls w').runtime.session.epoch
      → (statement : ConsoleStatement) × (lookup receipt.statement.id
            (run api config tools calls w').runtime.statements
          ≡ some statement)
        × (submit api config tools again (run api config tools calls w') ≡ (
          run api config tools calls w',
          ok (record { statement = statement; deduplicated = true }),
        ))
  submit_again_later w w' q again receipt calls new done same fine current =
      let v = run api config tools calls w' in
      let held : Noted q.client_request_id (w', ok receipt) =
        subst (Noted q.client_request_id) done ((Answers-submit api config tools q).notes w new) in
      let known =
        run-Knows q.client_request_id receipt.statement.id calls w' (held.0, ap is_some held.1) in
      elim (Option-cases (lookup receipt.statement.id v.runtime.statements)) [
        | inl gone ↦ absurd (
            let e : is_some {A = ConsoleStatement} none ≡ true = ap is_some (sym gone) ∙ known.1 in
            cc)
        | inr (statement, there) ↦ (
          statement,
          there,
          replayed api config tools v again receipt.statement.id statement
              (ap (λ id. lookup id v.runtime.requests) same ∙ known.0) there fine current,
        )
      ]
