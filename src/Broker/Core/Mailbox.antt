-- ===== src/Broker/Core/Mailbox.antt =====
-- Every call on a session keeps the account of its mailbox, app/broker/core.py.
use data_ops_studio_v.Base.{
  ℕ, ◌+◌, ◌≤◌, ◌<◌, ◌≡◌, refl, String, Bool, Option, none, some, List, [], ◌∷◌, ◌++◌, length,
  length-append, ltb, arith, Bool-cases, Option-cases, inl, inr, ok,
}
use data_ops_studio_v.Broker.Core.{
  World, SessionRuntime, BrokerConfig, BrokerStore, Tools, LaneCommand, execute, close_lane,
}
use data_ops_studio_v.Broker.Core.Op.{
  Op, ◌>>=◌, ◌>>◌, after, this, change, Keeps, Keeps-bind, Keeps-then, Keeps-if, Keeps-this,
  Keeps-return, Keeps-fail_if, Keeps-change,
}
use data_ops_studio_v.Broker.Core.Changes.{
  put_nowait, queue_close, queued_close, queue_close_locked,
}
use data_ops_studio_v.Broker.Core.Client.{require_epoch, queue_execute, queued_execute}
use data_ops_studio_v.Broker.Core.Steady.{
  IsSteady, Keeps-cancel_running, Keeps-cancel_queued_locked,
}
use data_ops_studio_v.Broker.Core.Accounting.{
  executes-snoc_execute, executes-snoc_close, IsAccounted, HasRoom, IsShut, shut,
  IsSteady-IsAccounted, IsSteady-IsShut,
}

put_nowait_lem :
    (size : ℕ) (c : LaneCommand) (cs cs' : List LaneCommand)
    → put_nowait size c cs ≡ some cs'
    → (length cs < size) × (cs' ≡ cs ++ c ∷ [])
unfolding put_nowait
put_nowait_lem size c cs cs' e = elim (Bool-cases (ltb (length cs) size)) [
  | inl room ↦ (ground arith, some_eq (cs ++ c ∷ []) cs' (rw room at e))
  | inr full ↦ let clash = (rw full at e) in cc
]
  where
    some_eq :
        (a b : List LaneCommand) → ◌≡◌ {A = Option (List LaneCommand)} (some a) (some b) → b ≡ a
    some_eq a b e = cc

put_nowait_full :
    (size : ℕ) (c : LaneCommand) (cs : List LaneCommand)
    → put_nowait size c cs ≡ none
    → size ≤ length cs
unfolding put_nowait
put_nowait_full size c cs e = elim (Bool-cases (ltb (length cs) size)) [
  | inl room ↦ let clash = (rw room at e) in cc
  | inr full ↦ ground arith
]

module _ {S : Type 0} (api : BrokerStore S) (config : BrokerConfig) (tools : Tools) where
  abbrev pub P : SessionRuntime → Type 0
  P = IsAccounted config.mailbox_size

  pub steady : IsSteady P
  steady = IsSteady-IsAccounted config.mailbox_size

  -- The change before a step gives it another property to keep.
  enter :
      {P Q : SessionRuntime → Type 0} {A : Type 0} (f : SessionRuntime → SessionRuntime)
      (m : Op S A)
      → ((r : SessionRuntime) → P r → Q (f r))
      → ((r : SessionRuntime) → Q r → P r)
      → Keeps Q m
      → Keeps P (change f >> m)
  unfolding ◌>>◌ after change
  enter f m into back kept = record {
    keeps = λ w h. back _ (kept.keeps _ (into w.runtime h));
    agrees = λ w h. kept.agrees _ (into w.runtime h);
  }

  queued_close-IsShut :
      (reason : String) (r : SessionRuntime) (o : Option (List LaneCommand))
      → put_nowait config.mailbox_size (close_lane reason) r.mailbox ≡ o
      → IsShut config.mailbox_size r
      → IsShut config.mailbox_size (queued_close reason r o)
  unfolding queued_close
  queued_close-IsShut reason r none e h = h
  queued_close-IsShut reason r (some mailbox) e h =
      let (room, longer) =
        put_nowait_lem config.mailbox_size (close_lane reason) r.mailbox mailbox e in
      (
        record {
          counted = rw (longer, executes-snoc_close r.mailbox reason) h.0.counted;
          bounded = h.0.bounded;
          fits = rw longer (omega (arith, length-append r.mailbox (close_lane reason ∷ [])));
          only_statements = λ e. absurd (let no = h.1 in cc);
        },
        h.1,
      )

  queue_close-IsShut :
      (reason : String) (r : SessionRuntime)
      → IsShut config.mailbox_size r
      → IsShut config.mailbox_size (queue_close config.mailbox_size reason r)
  unfolding queue_close
  queue_close-IsShut reason r h = queued_close-IsShut reason r _ refl h

  pub Keeps-queue_close_locked :
      (reason : String) (b : Bool) (now : ℕ) → Keeps P (queue_close_locked api config reason b now)
  unfolding queue_close_locked
  Keeps-queue_close_locked reason b now = Keeps-bind Keeps-this (λ r. Keeps-if _ (Keeps-return _) (
      enter _ _ (λ r h. (shut config.mailbox_size r h, refl)) (λ r h. h.0)
        (Keeps-then
          (Keeps-if _ (Keeps-cancel_running api config (IsShut config.mailbox_size) shut_steady _ _)
            (Keeps-return _))
          (Keeps-then
            (Keeps-if _
              (Keeps-cancel_queued_locked api config (IsShut config.mailbox_size) shut_steady _ _)
              (Keeps-return _))
            (Keeps-change _ (queue_close-IsShut reason))))))
    where
      shut_steady : IsSteady (IsShut config.mailbox_size)
      shut_steady = IsSteady-IsShut config.mailbox_size

  pub Keeps-require_epoch : (epoch : ℕ) → Keeps P (require_epoch api config tools epoch)
  unfolding require_epoch
  Keeps-require_epoch epoch = Keeps-bind Keeps-this (λ r. Keeps-fail_if _ _ (λ e. cc))

  queued_execute-accounted :
      (r : SessionRuntime) (id : String) (mailbox : List LaneCommand)
      → HasRoom config.mailbox_size r
      → put_nowait config.mailbox_size (execute id) r.mailbox ≡ some mailbox
      → P (record r { mailbox = mailbox; pending_count = r.pending_count + 1 })
  queued_execute-accounted r id mailbox h e =
      let (room, longer) = put_nowait_lem config.mailbox_size (execute id) r.mailbox mailbox e in
      let one_more = length-append r.mailbox (execute id ∷ []) in
      let account = h.0.counted in
      let below = h.1 in
      let all_statements = h.2 in
      record {
        counted = rw (longer, executes-snoc_execute r.mailbox id) (omega arith);
        bounded = omega arith;
        fits = rw longer (omega arith);
        only_statements = λ a. rw (longer, executes-snoc_execute r.mailbox id) (omega arith);
      }

  -- With room the command is queued, and the account is kept.
  pub queue_execute_with_room :
      (id : String) (w : World S)
      → HasRoom config.mailbox_size w.runtime
      → P (queue_execute api config tools id w).0.runtime
        × ((queue_execute api config tools id w).1 ≡ ok tt)
  unfolding queue_execute queued_execute ◌>>=◌ after this change
  queue_execute_with_room id w h =
      elim (Option-cases (put_nowait config.mailbox_size (execute id) w.runtime.mailbox)) [
        | inl full ↦ absurd (
            let long = put_nowait_full config.mailbox_size (execute id) w.runtime.mailbox full in
            let account = h.0.counted in let below = h.1 in let all_statements = h.2 in omega arith)
        | inr (mailbox, e) ↦ rw e (queued_execute-accounted w.runtime id mailbox h e, refl)
      ]
