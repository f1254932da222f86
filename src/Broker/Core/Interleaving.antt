-- ===== src/Broker/Core/Interleaving.antt =====
-- The account of the mailbox of a session in every interleaving of calls, app/broker/core.py.
use data_ops_studio_v.Base.{
  ℕ, ◌+◌, ◌-◌, ◌≤◌, ◌≡◌, ◌≢◌, refl, subst, ◌∙◌, true, Option, none, some, List, [], ◌∷◌, length,
  arith, Bool-cases, inl, inr, raise,
}
use data_ops_studio_v.Broker.Core.{
  World, SessionRuntime, BrokerConfig, BrokerStore, Tools, LaneCommand, execute, close_lane,
  mailbox_diverged,
}
use data_ops_studio_v.Broker.Core.Op.{
  ◌>>=◌, ◌>>◌, after, return, this, change, Keeps, Keeps-bind, Keeps-then, Keeps-if, Keeps-this,
  Keeps-return,
}
use data_ops_studio_v.Broker.Core.Client.{close}
use data_ops_studio_v.Broker.Core.Lane.{
  lane_get, get_if_free, lane_count, take_pending_close, got_command, is_execute,
}
use data_ops_studio_v.Broker.Core.Control.{run_timers, close_idle}
use data_ops_studio_v.Broker.Core.Calls.{
  SessionCall, submits, cancels, closes, shuts_down, cannot_connect, connects, gets, counts, drains,
  executes_statement, streams, notes, finishes, begins_closing, ends_closing, cancel_done,
  destroy_done, timer, call, run,
}
use data_ops_studio_v.Broker.Core.Steady.{IsSteady, changed}
use data_ops_studio_v.Broker.Core.SteadyLane.{
  Keeps-connect_failed, Keeps-connected, Keeps-execute_statement, Keeps-stream_statement,
  Keeps-note_ending, Keeps-finish_statement, Keeps-closing, Keeps-closed, Keeps-cancel_done,
  Keeps-destroy_done, Keeps-timeout_statement, Keeps-escalate_cancel,
}
use data_ops_studio_v.Broker.Core.Accounting.{
  executes, executes-le, IsAccounted, IsSteady-IsAccounted,
}
use data_ops_studio_v.Broker.Core.Mailbox.{Keeps-queue_close_locked, Keeps-require_epoch}
use data_ops_studio_v.Broker.Core.Submitted.{Keeps-submit, Keeps-cancel}

module _ {S : Type 0} (api : BrokerStore S) (config : BrokerConfig) (tools : Tools) where
  abbrev P : SessionRuntime → Type 0
  P = IsAccounted config.mailbox_size

  steady : IsSteady P
  steady = IsSteady-IsAccounted config.mailbox_size

  got_command-accounted :
      (r : SessionRuntime) (mailbox : List LaneCommand)
      → r.taken ≡ none
      → r.mailbox ≡ mailbox
      → P r
      → P (got_command r mailbox)
  unfolding got_command executes
  got_command-accounted r [] free e h = h
  got_command-accounted r (execute id ∷ rest) free e h =
      let account : r.pending_count ≡ executes (execute id ∷ rest) + 0 =
        h.counted ∙ rw (e, free) refl in
      let same : r.accepting ≡ true → executes (execute id ∷ rest) ≡ length (execute id ∷ rest) =
        λ a. subst (λ m. executes m ≡ length m) e (h.only_statements a) in
      record {
        counted = omega arith;
        bounded = h.bounded;
        fits =
            (let long : length (execute id ∷ rest) ≤ config.mailbox_size =
                subst (λ m. length m ≤ config.mailbox_size) e h.fits in
              omega arith);
        only_statements = λ a. (let s = same a in omega arith);
      }
  got_command-accounted r (close_lane reason ∷ rest) free e h =
      let account : r.pending_count ≡ executes (close_lane reason ∷ rest) + 0 =
        h.counted ∙ rw (e, free) refl in
      let same : r.accepting ≡ true
          → executes (close_lane reason ∷ rest) ≡ length (close_lane reason ∷ rest) =
        λ a. subst (λ m. executes m ≡ length m) e (h.only_statements a) in
      record {
        counted = omega arith;
        bounded = h.bounded;
        fits =
            (let long : length (close_lane reason ∷ rest) ≤ config.mailbox_size =
                subst (λ m. length m ≤ config.mailbox_size) e h.fits in
              omega arith);
        only_statements =
            λ a. (let s = same a in let few = executes-le rest in absurd (omega arith));
      }

  got :
      (w : World S) (taken : Option LaneCommand)
      → w.runtime.taken ≡ taken
      → P w.runtime
      → P (get_if_free api config taken w).0.runtime
        × ((get_if_free api config taken w).1 ≢ raise mailbox_diverged)
  unfolding get_if_free change return
  got w none free h = (got_command-accounted w.runtime w.runtime.mailbox free refl h, λ e. cc)
  got w (some c) busy h = (h, λ e. cc)

  Keeps-lane_get : Keeps P (lane_get api config)
  unfolding lane_get ◌>>=◌ after this
  Keeps-lane_get = record {
    keeps = λ w h. (got w w.runtime.taken refl h).0;
    agrees = λ w h. (got w w.runtime.taken refl h).1;
  }

  count_down :
      (r : SessionRuntime)
      → is_execute r.taken ≡ true
      → P r
      → P (record r { pending_count = r.pending_count - 1; taken = none })
  count_down r busy h =
      let account : r.pending_count ≡ executes r.mailbox + 1 = h.counted ∙ rw busy refl in
      record {
        counted = omega arith;
        bounded = (let b = h.bounded in omega arith);
        fits = h.fits;
        only_statements = h.only_statements;
      }

  Keeps-lane_count : Keeps P (lane_count api config)
  unfolding lane_count ◌>>=◌ after this change return
  Keeps-lane_count = record {
    keeps = λ w h. elim (Bool-cases (is_execute w.runtime.taken)) [
      | inl busy ↦ rw busy (count_down w.runtime busy h)
      | inr other ↦ rw other h
    ];
    agrees = λ w h. elim (Bool-cases (is_execute w.runtime.taken)) [
      | inl busy ↦ rw busy (λ e. cc)
      | inr other ↦ rw other (λ e. cc)
    ];
  }

  Keeps-take_pending_close : Keeps P (take_pending_close api config)
  unfolding take_pending_close
  Keeps-take_pending_close = Keeps-bind Keeps-this (λ r. drained r r.mailbox)
    where
      drained :
          (r : SessionRuntime) (mailbox : List LaneCommand)
          → Keeps {S = S} P (elim mailbox [
            | _ ∷ _ ↦ return none
            | [] ↦
                change (λ r. record r { close_reason_pending = none })
                >> return r.close_reason_pending
          ])
      drained r [] =
          Keeps-then
            (changed api config P steady _ (λ r. refl) (λ r. refl) (λ r. refl) (λ r. refl)
              (λ r. (refl, λ id h. h)))
            (Keeps-return _)
      drained r (c ∷ cs) = Keeps-return _

  pub Keeps-run_timers : (now : ℕ) → Keeps P (run_timers api config now)
  unfolding run_timers close_idle
  Keeps-run_timers now = Keeps-then (Keeps-timeout_statement api config P steady now) (
      Keeps-then (Keeps-escalate_cancel api config P steady now) (
        Keeps-bind Keeps-this
          (λ r. Keeps-if _ (Keeps-queue_close_locked api config tools _ _ _) (Keeps-return _))))

  pub Keeps-call : (c : SessionCall) → Keeps P (call api config tools c)
  unfolding call close
  Keeps-call (submits q) = Keeps-bind (Keeps-submit api config tools q) (λ a. Keeps-return _)
  Keeps-call (cancels id epoch now) =
      Keeps-bind (Keeps-cancel api config tools id epoch now) (λ a. Keeps-return _)
  Keeps-call (closes epoch reason now) =
      Keeps-then (Keeps-require_epoch api config tools epoch)
        (Keeps-queue_close_locked api config tools reason true now)
  Keeps-call (shuts_down now) = Keeps-queue_close_locked api config tools "shutdown" true now
  Keeps-call (cannot_connect code now) = Keeps-connect_failed api config P steady code now
  Keeps-call (connects marker now) = Keeps-connected api config P steady marker now
  Keeps-call gets = Keeps-lane_get
  Keeps-call counts = Keeps-lane_count
  Keeps-call drains = Keeps-bind Keeps-take_pending_close (λ a. Keeps-return _)
  Keeps-call (executes_statement id now) = Keeps-execute_statement api config P steady id now
  Keeps-call (streams id) = Keeps-stream_statement api config P steady id
  Keeps-call (notes e) = Keeps-note_ending api config P steady e
  Keeps-call (finishes id e reason code summary now) =
      Keeps-finish_statement api config P steady id e reason code summary now
  Keeps-call (begins_closing now) = Keeps-closing api config P steady now
  Keeps-call (ends_closing reason now) = Keeps-closed api config P steady reason now
  Keeps-call (cancel_done failed now) = Keeps-cancel_done api config P steady failed now
  Keeps-call (destroy_done failed now) = Keeps-destroy_done api config P steady failed now
  Keeps-call (timer now) = Keeps-run_timers now

  -- Whatever calls a session has gone through, in any order, from a state whose account is right:
  -- `pending_count` is the number of statements in the mailbox and one more while the lane holds one
  -- that it has not counted, it is at most the size of the mailbox, and no further call raises the
  -- error of a mailbox that disagrees with its count.
  pub run-IsAccounted :
      (calls : List SessionCall) (w : World S) (next : SessionCall)
      → IsAccounted config.mailbox_size w.runtime
      → IsAccounted config.mailbox_size (run api config tools calls w).runtime
        × ((call api config tools next (run api config tools calls w)).1 ≢ raise mailbox_diverged)
  unfolding run
  run-IsAccounted [] w next h = (h, (Keeps-call next).agrees w h)
  run-IsAccounted (c ∷ cs) w next h =
      run-IsAccounted cs (call api config tools c w).0 next ((Keeps-call c).keeps w h)
