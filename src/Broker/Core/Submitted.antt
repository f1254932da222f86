-- ===== src/Broker/Core/Submitted.antt =====
-- `submit` and `cancel` keep the account of the mailbox, app/broker/core.py.
use data_ops_studio_v.Base.{
  ℕ, ◌≡◌, ◌≢◌, refl, String, Bool, true, false, not, Option, none, some, ◌||◌, leb, arith,
  Bool-cases, inl, inr, raise, ok, Result,
}
use data_ops_studio_v.Broker.State.{is_active}
use data_ops_studio_v.Broker.Store.{ConsoleStatement}
use data_ops_studio_v.Broker.Core.{
  World, SessionRuntime, BrokerConfig, BrokerStore, Tools, Fault, mailbox_diverged,
}
use data_ops_studio_v.Broker.Core.Op.{
  Op, ◌>>=◌, ◌>>◌, after, return, this, fail_if, fail_with, Keeps, Keeps-bind, Keeps-then, Keeps-if,
  Keeps-this, Keeps-return, Keeps-fail_with, Keeps-fail_if, Keeps-in_store, Keeps-at_key,
}
use data_ops_studio_v.Broker.Core.Client.{
  Submission, check_arguments, check_open, create_in_store, note_answer, register_failed,
  queue_execute, registered, created, submit_new, replay, submit, cancel_accepted, cancel_current,
  cancel,
}
use data_ops_studio_v.Broker.Core.Steady.{
  IsSteady, changed, Keeps-record_event, Keeps-put_statement, Keeps-set_statement_state,
  Keeps-begin_cancel_locked,
}
use data_ops_studio_v.Broker.Core.Accounting.{
  IsAccounted, HasRoom, IsSteady-IsAccounted, IsSteady-HasRoom,
}
use data_ops_studio_v.Broker.Core.Client.{submit_or_replay}
use data_ops_studio_v.Broker.Core.Mailbox.{Keeps-require_epoch, queue_execute_with_room}

module _ {S : Type 0} (api : BrokerStore S) (config : BrokerConfig) (tools : Tools) where
  abbrev P : SessionRuntime → Type 0
  P = IsAccounted config.mailbox_size

  steady : IsSteady P
  steady = IsSteady-IsAccounted config.mailbox_size

  room_steady : IsSteady (HasRoom config.mailbox_size)
  room_steady = IsSteady-HasRoom config.mailbox_size

  after_raise :
      {A B : Type 0} (v : World S) (e : Fault) (next : A → Op S B)
      → P v.runtime
      → ◌≢◌ {A = Result Fault A} (raise e) (raise mailbox_diverged)
      → P (after (v, raise e) next).0.runtime
        × ((after (v, raise e) next).1 ≢ raise mailbox_diverged)
  unfolding after
  after_raise v e next k n = (k, λ same. n (cc))

  after_ok :
      {A B : Type 0} (v : World S) (a : A) (next : A → Op S B)
      → P (next a v).0.runtime
      → (next a v).1 ≢ raise mailbox_diverged
      → P (after (v, ok a) next).0.runtime × ((after (v, ok a) next).1 ≢ raise mailbox_diverged)
  unfolding after
  after_ok v a next k n = (k, n)

  queued :
      {B : Type 0} (q : World S × Result Fault (Unit {0})) (next : Op S B)
      → P q.0.runtime
      → q.1 ≡ ok tt
      → Keeps P next
      → P (after q (λ _. next)).0.runtime × ((after q (λ _. next)).1 ≢ raise mailbox_diverged)
  queued (v, raise e) next k done later = absurd (let no : raise e ≡ ok tt = done in cc)
  queued (v, ok a) next k done later = after_ok v a (λ _. next) (later.keeps v k) (later.agrees v k)

  -- From a session with room a step ends in one whose account is kept.
  record Leads {A : Type 0} (m : Op S A) : Type 0 where
    ends : (w : World S) → HasRoom config.mailbox_size w.runtime → P (m w).0.runtime
    agrees :
        (w : World S) → HasRoom config.mailbox_size w.runtime → (m w).1 ≢ raise mailbox_diverged

  Leads-keeps : {A : Type 0} {m : Op S A} → Keeps (HasRoom config.mailbox_size) m → Leads m
  Leads-keeps kept = record { ends = λ w h. (kept.keeps w h).0; agrees = λ w h. kept.agrees w h }

  Leads-bind :
      {A B : Type 0} {m : Op S A} {next : A → Op S B}
      → Keeps (HasRoom config.mailbox_size) m
      → ((a : A) → Leads (next a))
      → Leads (m >>= next)
  unfolding ◌>>=◌
  Leads-bind {A = A} {B = B} {m = m} {next = next} first later = record {
    ends = λ w h. (goes_on (m w) (first.keeps w h) (first.agrees w h)).0;
    agrees = λ w h. (goes_on (m w) (first.keeps w h) (first.agrees w h)).1;
  }
    where
      goes_on :
          (q : World S × Result Fault A)
          → HasRoom config.mailbox_size q.0.runtime
          → q.1 ≢ raise mailbox_diverged
          → P (after q next).0.runtime × ((after q next).1 ≢ raise mailbox_diverged)
      goes_on (v, raise e) k n = after_raise v e next k.0 n
      goes_on (v, ok a) k n = after_ok v a next ((later a).ends v k) ((later a).agrees v k)

  Leads-then :
      {B : Type 0} {m : Op S (Unit {0})} {next : Op S B}
      → Keeps (HasRoom config.mailbox_size) m
      → Leads next
      → Leads (m >> next)
  unfolding ◌>>◌ ◌>>=◌
  Leads-then first later = Leads-bind first (λ _. later)

  Leads-queue_execute :
      {B : Type 0} (id : String) {next : Op S B}
      → Keeps P next
      → Leads (queue_execute api config tools id >> next)
  unfolding ◌>>◌
  Leads-queue_execute id {next} later = record {
    ends = λ w h. (goes_on w h).0;
    agrees = λ w h. (goes_on w h).1;
  }
    where
      goes_on :
          (w : World S)
          → HasRoom config.mailbox_size w.runtime
          → P (after (queue_execute api config tools id w) (λ _. next)).0.runtime
            × ((after (queue_execute api config tools id w) (λ _. next)).1 ≢ raise mailbox_diverged)
      goes_on w h =
          let (kept, done) = queue_execute_with_room api config tools id w h in
          queued (queue_execute api config tools id w) next kept done later

  -- Past its checks a session has room, and the rest of the step may use that.
  checked : {A : Type 0} (m : Op S A) → Leads m → Keeps P (check_open api config tools >> m)
  unfolding ◌>>◌ ◌>>=◌ after this check_open fail_if fail_with return
  checked m kept = record { keeps = λ w h. keep w h; agrees = λ w h. agree w h }
    where
      closed : SessionRuntime → Bool
      closed r = not r.accepting || not (is_active r.session.state)

      full : SessionRuntime → Bool
      full r = leb config.mailbox_size r.pending_count

      room :
          (r : SessionRuntime)
          → P r
          → closed r ≡ false
          → full r ≡ false
          → HasRoom config.mailbox_size r
      room r h open_ free = (h, ground arith, h.only_statements (ground arith))

      keep : (w : World S) → P w.runtime → P ((check_open api config tools >> m) w).0.runtime
      keep w h = elim (Bool-cases (closed w.runtime)) [
        | inl shut_ ↦ rw shut_ h
        | inr open_ ↦ elim (Bool-cases (full w.runtime)) [
          | inl filled ↦ rw (open_, filled) h
          | inr free ↦ rw (open_, free) (kept.ends w (room w.runtime h open_ free))
        ]
      ]

      agree :
          (w : World S)
          → P w.runtime
          → ((check_open api config tools >> m) w).1 ≢ raise mailbox_diverged
      agree w h = elim (Bool-cases (closed w.runtime)) [
        | inl shut_ ↦ rw shut_ (λ e. cc)
        | inr open_ ↦ elim (Bool-cases (full w.runtime)) [
          | inl filled ↦ rw (open_, filled) (λ e. cc)
          | inr free ↦ rw (open_, free) (kept.agrees w (room w.runtime h open_ free))
        ]
      ]

  note_answer-HasRoom :
      (id : String) (statement : ConsoleStatement)
      → Keeps (HasRoom config.mailbox_size) (note_answer {S = S} id statement)
  unfolding note_answer
  note_answer-HasRoom id statement = record { keeps = λ w h. h; agrees = λ w h e. cc }

  Leads-created :
      (q : Submission) (answer : ConsoleStatement × Bool)
      → Leads (created api config tools q answer)
  unfolding created registered register_failed
  Leads-created q (statement, true) = Leads-keeps (Keeps-return _)
  Leads-created q (statement, false) =
      Leads-option _ _ (tools.register statement q.page_size q.max_result_rows)
        (Leads-keeps (
          Keeps-bind (Keeps-set_statement_state api config _ room_steady _ _ _ _ _ _) (λ updated.
            Keeps-then (Keeps-record_event api config _ room_steady _ _ _)
              (Keeps-fail_with _ (λ e. cc)))))
        (λ id.
          Leads-then
            (changed api config _ room_steady _ (λ r. refl) (λ r. refl) (λ r. refl) (λ r. refl)
              (λ r. (refl, λ id h. h)))
            (Leads-then (Keeps-put_statement api config _ room_steady _) (
              Leads-queue_execute _
                (Keeps-then (Keeps-record_event api config _ steady _ _ _) (Keeps-return _)))))
    where
      Leads-option :
          {A B : Type 0} (none_case : Op S B) (some_case : A → Op S B) (o : Option A)
          → Leads none_case
          → ((a : A) → Leads (some_case a))
          → Leads (elim o [ none ↦ none_case | some a ↦ some_case a ])
      Leads-option n s none x y = x
      Leads-option n s (some a) x y = y a

  Keeps-submit_new : (q : Submission) → Keeps P (submit_new api config tools q)
  unfolding submit_new create_in_store
  Keeps-submit_new q = checked _ (
      Leads-bind (Keeps-bind Keeps-this (λ r. Keeps-in_store _)) (λ answer.
        Leads-then (note_answer-HasRoom q.client_request_id answer.0) (Leads-created q answer)))

  Keeps-submit_or_replay :
      (q : Submission) (o : Option String) → Keeps P (submit_or_replay api config tools q o)
  unfolding submit_or_replay replay
  Keeps-submit_or_replay q none = Keeps-submit_new q
  Keeps-submit_or_replay q (some id) =
      Keeps-bind Keeps-this (λ r. Keeps-bind (Keeps-at_key _) (λ s. Keeps-return _))

  pub Keeps-submit : (q : Submission) → Keeps P (submit api config tools q)
  unfolding submit check_arguments
  Keeps-submit q =
      Keeps-then (Keeps-then (Keeps-fail_if _ _ (λ e. cc)) (Keeps-fail_if _ _ (λ e. cc))) (
        Keeps-then (Keeps-require_epoch api config tools q.epoch)
          (Keeps-bind Keeps-this (λ r. Keeps-submit_or_replay q _)))

  pub Keeps-cancel : (id : String) (epoch now : ℕ) → Keeps P (cancel api config tools id epoch now)
  unfolding cancel cancel_accepted cancel_current
  Keeps-cancel id epoch now = Keeps-then (Keeps-require_epoch api config tools epoch) (
      Keeps-bind Keeps-this (λ r. Keeps-bind (Keeps-at_key _) (λ statement.
        Keeps-if _
          (Keeps-bind (Keeps-set_statement_state api config _ steady _ _ _ _ _ _)
            (λ updated. Keeps-then (Keeps-record_event api config _ steady _ _ _) (Keeps-return _)))
          (Keeps-if _
            (Keeps-then (Keeps-begin_cancel_locked api config _ steady _ _ _)
              (Keeps-bind Keeps-this (λ r. Keeps-bind (Keeps-at_key _) (λ s. Keeps-return _))))
            (Keeps-if _ (Keeps-return _) (Keeps-fail_with _ (λ e. cc)))))))
