-- ===== src/Broker/Core/Tests.antt =====
-- Steps of a session of app/broker/core.py over the in-memory store.
use data_ops_studio_v.Base.{
  List, [], ◌∷◌, ◌≡◌, ◌≢◌, refl, true, false, none, some, [], ◌∷◌, ok, raise, ◌⊎◌, arith, lookup,
  insert, All, ◌==◌, if◌then◌else◌,
}
use data_ops_studio_v.Broker.State.{
  session_eq, ConsoleSessionState-discrete, is_active, active_console_session_states,
}
use data_ops_studio_v.Broker.Store.{ConsoleStatement, new_session, new_statement}
use data_ops_studio_v.Broker.Store.Memory.{
  MemoryBrokerStore, attach_session, create_statement, update_statement, add_event, find_request,
  max_seq,
}
use data_ops_studio_v.Broker.Core.{
  SubmitReceipt, World, broker_error, mailbox_diverged, value_error,
}
use data_ops_studio_v.Broker.Core.Op.{
  after, ◌>>=◌, ◌>>◌, return, this, change, fail_if, fail_with, in_store, at_key,
}
use data_ops_studio_v.Broker.Core.Changes.{put_nowait, put_statement, save_statement, record_event}
use data_ops_studio_v.Broker.Core.Client.{
  submit_or_replay, submit, cancel, close, submit_new, create_in_store, note_answer, created,
  registered, queue_execute, queued_execute, check_arguments, check_open, require_epoch,
  statement_request,
}
use data_ops_studio_v.Broker.Core.Calls.{SessionCall, gets, counts, submits, call, run}
use data_ops_studio_v.Broker.Core.Accounting.{executes, IsAccounted}
use data_ops_studio_v.Broker.Core.Interleaving.{run-IsAccounted}
use data_ops_studio_v.Broker.Core.Epochs.{stale_epoch_refused}
use data_ops_studio_v.Broker.Core.Drain.{
  Drained, drain_to_spool, batch_size, flushed, publish_failed, drain_rows, take_row, flush_batch,
  flush_with, reset_batch, unless_raised, finally_flush, last_batch_of, mark_truncated, row_limit,
  at_limit,
}
use data_ops_studio_v.Broker.Core.Changes.{idle_deadline_at}
use data_ops_studio_v.Broker.Core.Attach.{
  session_named, if_active, attach_found, new_runtime, attach_serial, existing_session,
  attached_new, limit_reached, active_sessions, count_owned, count_on,
}
use data_ops_studio_v.Broker.Core.Limits.{WithinLimits, attach_serial-WithinLimits}
use data_ops_studio_v.Broker.Core.Invariant.{
  BrokerCall, attaches, steps, ticks, broker_run, broker_run-IsAccounted,
}
use data_ops_studio_v.Broker.Core.Replay.{submit_again}
use data_ops_studio_v.Broker.Core.Later.{submit_again_later}
use data_ops_studio_v.Broker.Core.Lane.{lane_get, get_if_free, got_command, lane_count}
use data_ops_studio_v.Broker.Core.Samples.{
  memory_api, small_config, some_tools, first_session, idle_runtime, idle_world, submission,
  some_calls, all_well, three_rows, four_rows, request_by_ann, attached_session, empty_broker,
  broker_of_one,
}

idle_runtime-IsAccounted : IsAccounted 1 idle_runtime
unfolding executes
idle_runtime-IsAccounted = record {
  counted = refl;
  bounded = omega arith;
  fits = omega arith;
  only_statements = λ e. refl;
}

run-IsAccounted_example :
    IsAccounted 1 (run memory_api small_config some_tools some_calls idle_world).runtime
    × ((call memory_api small_config some_tools
          (submits (submission "s5" "r5"))
          (run memory_api small_config some_tools some_calls idle_world)).1
        ≢ raise mailbox_diverged)
run-IsAccounted_example =
    run-IsAccounted memory_api small_config some_tools some_calls idle_world
      (submits (submission "s5" "r5")) idle_runtime-IsAccounted

stale_epoch_refused_example :
    (cancel memory_api small_config some_tools "s1" 0 30 idle_world
      ≡ (idle_world, raise (broker_error "stale_session_epoch" (some 1))))
    × (close memory_api small_config some_tools 0 "user" 30 idle_world
        ≡ (idle_world, raise (broker_error "stale_session_epoch" (some 1))))
    × ((submit memory_api small_config some_tools
            (record (submission "s1" "r1") { epoch = 0 })
            idle_world
          ≡ (idle_world, raise (broker_error "stale_session_epoch" (some 1))))
        ⊎ (submit memory_api small_config some_tools
              (record (submission "s1" "r1") { epoch = 0 })
              idle_world
            ≡ (idle_world, raise value_error)))
stale_epoch_refused_example =
    stale_epoch_refused memory_api small_config some_tools idle_world 0
      (record (submission "s1" "r1") { epoch = 0 }) "s1" "user" 30 (λ e. omega arith) refl

-- A mailbox of one: the second statement is refused, until the lane has got and counted the first.
full_then_free :
    (call memory_api small_config some_tools
      (submits (submission "s2" "r2"))
      (run memory_api small_config some_tools (submits (submission "s1" "r1") ∷ []) idle_world)).1
    ≡ raise (broker_error "session_mailbox_full" (some 1))
unfolding run call submit submit_or_replay submit_new create_in_store note_answer created registered
    put_statement save_statement record_event queue_execute queued_execute put_nowait
    check_arguments check_open require_epoch statement_request after ◌>>=◌ ◌>>◌ return this change
    fail_if fail_with in_store at_key create_statement update_statement add_event find_request
    max_seq new_statement lookup insert is_active active_console_session_states session_eq
    ConsoleSessionState-discrete
full_then_free = refl

-- The catalogue is not told of the first batch: the batch stands twice in the result set, since it is
-- flushed again at the end.
published_late :
    drain_to_spool
      (record all_well { flush_outcome = λ n. if n == 0 then publish_failed else flushed })
      small_config
      (some three_rows)
      four_rows
    ≡ (
      record {
        rows_read = 2;
        rows_returned = 2;
        output_limit_applied = false;
        batch = 1 ∷ 2 ∷ [];
        stored = (1 ∷ 2 ∷ []) ∷ (1 ∷ 2 ∷ []) ∷ [];
        flushes = 2;
        truncated = false;
      },
      true,
    )
unfolding drain_to_spool drain_rows take_row flush_batch flush_with reset_batch unless_raised
    finally_flush last_batch_of mark_truncated batch_size row_limit at_limit
published_late = refl

attached_one :
    attach_serial memory_api small_config some_tools empty_broker request_by_ann "session" 10
    ≡ (broker_of_one, ok attached_session)
unfolding attach_serial attach_found existing_session session_named if_active attached_new
    limit_reached active_sessions count_owned count_on idle_deadline_at attach_session new_session
    lookup insert new_runtime
attached_one = refl

nobody_there : existing_session memory_api small_config some_tools empty_broker "console" ≡ none
unfolding existing_session session_named lookup
nobody_there = refl

attach_serial-WithinLimits_example :
    WithinLimits small_config.limits request_by_ann (active_sessions broker_of_one.sessions)
attach_serial-WithinLimits_example =
    attach_serial-WithinLimits memory_api small_config some_tools empty_broker broker_of_one
      request_by_ann attached_session "session" 10 nobody_there attached_one

abbrev after_first : World MemoryBrokerStore
after_first = (submit memory_api small_config some_tools (submission "s1" "r1") idle_world).0

abbrev first_receipt : SubmitReceipt
first_receipt = record {
  statement =
      record (new_statement first_session
        (statement_request memory_api small_config some_tools (submission "s1" "r1")) 1) {
          result_set_id = some "result";
        };
  deduplicated = false;
}

submitted_first :
    submit memory_api small_config some_tools (submission "s1" "r1") idle_world
    ≡ (after_first, ok first_receipt)
unfolding run call submit submit_or_replay submit_new create_in_store note_answer created registered
    put_statement save_statement record_event queue_execute queued_execute put_nowait
    check_arguments check_open require_epoch statement_request after ◌>>=◌ ◌>>◌ return this change
    fail_if fail_with in_store at_key create_statement update_statement add_event find_request
    max_seq new_statement lookup insert is_active active_console_session_states session_eq
    ConsoleSessionState-discrete
submitted_first = refl

same_epoch : 1 ≡ after_first.runtime.session.epoch
unfolding run call submit submit_or_replay submit_new create_in_store note_answer created registered
    put_statement save_statement record_event queue_execute queued_execute put_nowait
    check_arguments check_open require_epoch statement_request after ◌>>=◌ ◌>>◌ return this change
    fail_if fail_with in_store at_key create_statement update_statement add_event find_request
    max_seq new_statement lookup insert is_active active_console_session_states session_eq
    ConsoleSessionState-discrete
same_epoch = refl

unknown_request : lookup "r1" idle_world.runtime.requests ≡ none
unfolding lookup
unknown_request = refl

arguments_fine :
    check_arguments memory_api small_config some_tools (submission "s2" "r1") after_first
    ≡ (after_first, ok tt)
unfolding check_arguments ◌>>◌ ◌>>=◌ after fail_if return
arguments_fine = refl

submit_again_example :
    submit memory_api small_config some_tools (submission "s2" "r1") after_first
    ≡ (after_first, ok (record { statement = first_receipt.statement; deduplicated = true }))
submit_again_example =
    submit_again memory_api small_config some_tools idle_world after_first (submission "s1" "r1")
      (submission "s2" "r1") first_receipt unknown_request submitted_first refl arguments_fine
      same_epoch

-- The lane gets the statement and counts it.
abbrev later_calls : List SessionCall
later_calls = gets ∷ counts ∷ []

abbrev after_lane : World MemoryBrokerStore
after_lane = run memory_api small_config some_tools later_calls after_first

arguments_fine_later :
    check_arguments memory_api small_config some_tools (submission "s2" "r1") after_lane
    ≡ (after_lane, ok tt)
unfolding check_arguments ◌>>◌ ◌>>=◌ after fail_if return
arguments_fine_later = refl

same_epoch_later : 1 ≡ after_lane.runtime.session.epoch
unfolding run call submit submit_or_replay submit_new create_in_store note_answer created registered
    put_statement save_statement record_event queue_execute queued_execute put_nowait
    check_arguments check_open require_epoch statement_request after ◌>>=◌ ◌>>◌ return this change
    fail_if fail_with in_store at_key create_statement update_statement add_event find_request
    max_seq new_statement lookup insert is_active active_console_session_states session_eq
    ConsoleSessionState-discrete lane_get get_if_free got_command lane_count
same_epoch_later = refl

submit_again_later_example :
    (statement : ConsoleStatement) × (lookup first_receipt.statement.id
        after_lane.runtime.statements
      ≡ some statement)
    × (submit memory_api small_config some_tools (submission "s2" "r1") after_lane
        ≡ (after_lane, ok (record { statement = statement; deduplicated = true })))
submit_again_later_example =
    submit_again_later memory_api small_config some_tools idle_world after_first
      (submission "s1" "r1") (submission "s2" "r1") first_receipt later_calls unknown_request
      submitted_first refl arguments_fine_later same_epoch_later

abbrev broker_calls : List BrokerCall
broker_calls =
    attaches request_by_ann "session" 10
    ∷ steps "session" (submits (submission "s1" "r1"))
    ∷ steps "session" gets
    ∷ ticks 30
    ∷ []

broker_run-IsAccounted_example :
    All
      (λ e. IsAccounted 1 e.1)
      (broker_run memory_api small_config some_tools broker_calls empty_broker).sessions
broker_run-IsAccounted_example =
    broker_run-IsAccounted memory_api small_config some_tools broker_calls empty_broker tt
