-- ===== src/Runner/Tests.antt =====
-- Runs of the Agent Runner on concrete inputs.
use porfirium.Prelude.{
  ℕ, ◌+◌, ◌≤◌, ◌<◌, ◌≡◌, ◌⊎◌, refl, Bool, true, false, Option, none, some, [], ◌∷◌, Uuid, Digest,
  ◌==◌, lookup, put, update_where, count, Holds, Returns, Result, ok, err, arith,
}
use porfirium.Runner.State.{
  RunState, Run, Attempt, Db, Error, RunAdmission, SignedSpecification, ExpiresAt, TriggerType,
  messages, enqueue, event_metadata, get_run, run_cancelled, run_completed, is_schedulable,
}
use porfirium.Runner.Admission.{admit, admit_new, admitted_run, find_admission, parse_time}
use porfirium.Runner.Attempts.{
  schedule, begin, new_attempt, max_number, clashes, insert_attempt, has_capacity, counts_globally,
  counts_for, mark_running, other_live, record_container,
}
use porfirium.Runner.Cancellation.{
  cancel_begin, cancel_finish, enqueue_interrupted, Cancelling, stopping, stop_attempt, end_attempt,
}
use porfirium.Runner.Loss.{reconcile, container_runs}
use porfirium.Runner.Completion.{
  RunEvent, result_proposed, messages_committed, consume_run_event, apply_event, propose,
  check_proposal, insert_proposal, completion_of, same_proposal, is_bound, confirm_messages,
  confirm_messages_row, converge, apply_confirmations, apply_messages, apply_checkpoint, finish,
  complete, is_ready,
}
use porfirium.Runner.Steps.{Config, Step, admitted, scheduled, consumed, Steps, here, next}
use porfirium.Runner.Terminal.{IsIdle, terminal_is_final, Steps-IsIdle}
use porfirium.Runner.Capacity.{schedule_within_limits}
use porfirium.Runner.Published.{IsPublishedOnce, Steps-IsPublishedOnce}
use porfirium.Runner.Retries.{IsBounded}
use porfirium.Runner.AttemptBound.{attempts_bounded}
use porfirium.Runner.Dedup.{consume_run_event_once, admit_repeats}
use porfirium.Runner.Races.{cancellation_lost}
use porfirium.Runner.Confirmed.{IsBacked, consume_run_event-IsBacked}

-- What the tests compute with.
runs : ℕ
unfolding lookup put update_where count enqueue event_metadata get_run admit admit_new admitted_run
    find_admission parse_time schedule begin new_attempt max_number clashes insert_attempt
    has_capacity mark_running other_live record_container cancel_begin cancel_finish
    enqueue_interrupted stop_attempt end_attempt container_runs consume_run_event apply_event
    propose check_proposal insert_proposal completion_of same_proposal is_bound confirm_messages
    confirm_messages_row converge apply_confirmations apply_messages apply_checkpoint finish
    complete is_ready
runs = 0

abbrev empty : Db
empty = record {
  runs = [];
  attempts = [];
  idempotency = [];
  inbox = [];
  completions = [];
  message_confirmations = [];
  checkpoint_confirmations = [];
  outbox = [];
}

abbrev admission : RunAdmission
admission = record {
  run_id = 10;
  user_id = 1;
  conversation_id = 2;
  thread_id = 3;
  release_id = 4;
  delegation_grant_id = 5;
  configuration_revision_id = none;
  starting_checkpoint_id = none;
  trigger = record { trigger_type = TriggerType.user_message; id = 6 };
  run_input = none;
  trace_id = 7;
}

abbrev specification : SignedSpecification
specification = record {
  specification_id = 8;
  run_id = 10;
  expires_at = ExpiresAt.at 5000;
  content = 77;
  payload_sha256 = 77;
}

abbrev digest : RunAdmission → Digest
digest a = a.run_id

abbrev payload_digest : ExpiresAt → ℕ → Digest
payload_digest x content = content

abbrev config : Config
config = record {
  digest = digest;
  payload_digest = payload_digest;
  attempt_timeout_seconds = 300;
  max_attempts = 3;
  limits = record { global_runs = 32; per_user_runs = 4 };
}

abbrev db_of : {A : Type 0} → Result Error (A × Db) → Db
db_of (ok (a, d)) = d
db_of (err e) = empty

abbrev row_of : {A : Type 0} → Result Error (Run × A) → Run
row_of (ok (r, a)) = r
row_of (err e) = admitted_run admission specification 0 0

abbrev admit_one : Result Error (Run × Db)
admit_one = admit digest payload_digest 300 admission 8 specification 50 1000 empty

admit_one_ok : admit_one ≡ ok (admitted_run admission specification 1300 1000, db_of admit_one)
unfolding runs
admit_one_ok = refl

abbrev schedule_one : Result Error (Option Uuid × Db)
schedule_one = schedule config.limits 10 21 1001 (db_of admit_one)

schedule_one_ok : schedule_one ≡ ok (some 21, db_of schedule_one)
unfolding runs
schedule_one_ok = refl

-- The attempt proposes its result, and the conversation service confirms the message.
abbrev proposed : RunEvent
proposed = record {
  id = 60;
  run_id = 10;
  user_id = 1;
  conversation_id = 2;
  thread_id = 3;
  correlation_id = 7;
  body = result_proposed (record {
    attempt_id = 21;
    lease_epoch = 1;
    required_confirmations = messages ∷ [];
    final_message_ids = 90 ∷ [];
    final_checkpoint_id = none;
  });
}

abbrev confirmed : RunEvent
confirmed = record proposed { id = 61; body = messages_committed (some (90 ∷ [])) }

abbrev propose_one : Result Error (Bool × Db)
propose_one = consume_run_event proposed 70 1002 (db_of schedule_one)

propose_one_ok : propose_one ≡ ok (true, db_of propose_one)
unfolding runs
propose_one_ok = refl

abbrev confirm_one : Result Error (Bool × Db)
confirm_one = consume_run_event confirmed 71 1003 (db_of propose_one)

confirm_one_ok : confirm_one ≡ ok (true, db_of confirm_one)
unfolding runs
confirm_one_ok = refl

abbrev completed_row : Run
completed_row = record (admitted_run admission specification 1300 1000) {
  state = RunState.completed;
  lease_epoch = 1;
  updated_at = 1003;
}

run_completes : lookup 10 (db_of confirm_one).runs ≡ some completed_row
unfolding runs
run_completes = refl

until_scheduled : Steps config empty (db_of schedule_one)
until_scheduled =
    next
      (next here (
        admitted admission 8 specification 50 1000 (admitted_run admission specification 1300 1000)
          admit_one_ok))
      (scheduled 10 21 1001 (some 21) schedule_one_ok)

until_completed : Steps config empty (db_of confirm_one)
until_completed =
    next (next until_scheduled (consumed proposed 70 1002 true propose_one_ok))
      (consumed confirmed 71 1003 true confirm_one_ok)

empty-IsIdle : Holds IsIdle empty.runs
unfolding runs
empty-IsIdle k r e = cc

empty-IsPublishedOnce : IsPublishedOnce empty
unfolding runs
empty-IsPublishedOnce run = omega arith

empty-IsBounded : IsBounded 3 empty.runs empty.attempts
unfolding runs
empty-IsBounded = (λ k r e. cc, λ run e. refl)

confirmed-IsIdle : Holds IsIdle (db_of confirm_one).runs
confirmed-IsIdle = Steps-IsIdle config empty-IsIdle until_completed

abbrev late_cancel : Result Error (Cancelling × Db)
late_cancel = cancel_begin 10 1004 (db_of confirm_one)

late_cancel_ok : late_cancel ≡ ok (Cancelling.finished completed_row, db_of late_cancel)
unfolding runs
late_cancel_ok = refl

after_completion : Steps config (db_of confirm_one) (db_of late_cancel)
after_completion =
    next here (Step.cancel_begun 10 1004 (Cancelling.finished completed_row) late_cancel_ok)

terminal_is_final_example : lookup 10 (db_of late_cancel).runs ≡ some completed_row
terminal_is_final_example =
    terminal_is_final config 10 completed_row confirmed-IsIdle after_completion run_completes refl

Steps-IsPublishedOnce_example : IsPublishedOnce (db_of confirm_one)
Steps-IsPublishedOnce_example =
    Steps-IsPublishedOnce config empty-IsIdle empty-IsPublishedOnce until_completed

completed_run_is_told :
    lookup 71 (db_of confirm_one).outbox
    ≡ some (run_completed (event_metadata 10 completed_row 60 1003) 21 1)
unfolding runs
completed_run_is_told = refl

attempts_bounded_example :
    (max_number 10 (db_of confirm_one).attempts ≤ 3)
    × ((is_schedulable completed_row.state ≡ false)
        ⊎ (max_number 10 (db_of confirm_one).attempts < 3))
attempts_bounded_example =
    attempts_bounded config 10 completed_row (omega arith) empty-IsBounded until_completed
      run_completes

schedule_within_limits_example :
    (r : Run) × (lookup 10 (db_of admit_one).runs ≡ some r)
    × (count counts_globally (db_of schedule_one).runs ≤ 32)
    × (count (counts_for r.admission.user_id) (db_of schedule_one).runs ≤ 4)
    × (lookup 10 (db_of schedule_one).runs
        ≡ some (record r {
          state = RunState.starting;
          active_attempt_id = some 21;
          lease_epoch = r.lease_epoch + 1;
          updated_at = 1001;
        }))
schedule_within_limits_example =
    schedule_within_limits config.limits 10 21 21 1001 (db_of admit_one) (db_of schedule_one)
      schedule_one_ok

consume_run_event_once_example :
    consume_run_event confirmed 99 2000 (db_of confirm_one) ≡ ok (false, db_of confirm_one)
consume_run_event_once_example =
    consume_run_event_once confirmed 71 99 1003 2000 (db_of propose_one) (db_of confirm_one)
      confirm_one_ok

admit_repeats_example :
    admit digest payload_digest 300 admission 8
      (record specification { expires_at = ExpiresAt.not_text })
      51
      9000
      (db_of admit_one)
    ≡ ok (admitted_run admission specification 1300 1000, db_of admit_one)
admit_repeats_example =
    admit_repeats digest payload_digest 300 admission 8 specification
      (record specification { expires_at = ExpiresAt.not_text }) 50 51 1000 9000 empty
      (db_of admit_one) admit_one_ok

-- A cancellation begins while the attempt is starting, and its container is gone.
abbrev starting_row : Run
starting_row = record (admitted_run admission specification 1300 1000) {
  state = RunState.starting;
  active_attempt_id = some 21;
  lease_epoch = 1;
  updated_at = 1001;
}

abbrev starting_attempt : Attempt
starting_attempt = new_attempt 10 1 1 1300

-- The ids of the events of `reconcile`.
abbrev fresh : Uuid → Uuid
fresh x = x + 1000

fresh_other : (x : Uuid) → (fresh x == 81) ≡ false
fresh_other x = ground arith

cancellation_lost_example : Returns (cancel_begin 10 1002 (db_of schedule_one)) λ (c, d1).
    (c ≡ stopping starting_row (some (21, starting_attempt)))
    × Returns
        (cancel_finish 10 starting_row
          (some (21, starting_attempt))
          80
          81
          82
          1004
          (reconcile 3 (λ x. false) fresh [] 1003 d1).2)
        λ (r', d').
          (r'.state ≡ RunState.scheduled)
          × (r'.active_attempt_id ≡ none)
          × (lookup 10 d'.runs ≡ some r')
          × (lookup 81 d'.outbox
              ≡ some (run_cancelled (event_metadata 10 starting_row 82 1004) (some 21) 1))
unfolding runs
cancellation_lost_example =
    cancellation_lost 3 (λ x. false) fresh [] 10 21 80 81 82 1002 1003 1004 (db_of schedule_one)
      starting_row starting_attempt (refl, tt) refl refl refl refl refl refl (omega arith)
      (omega arith) refl refl fresh_other

scheduled-IsBacked : IsBacked (db_of schedule_one)
unfolding runs
scheduled-IsBacked run c found = cc

proposed-IsBacked : IsBacked (db_of propose_one)
proposed-IsBacked =
    consume_run_event-IsBacked proposed 70 1002 (db_of schedule_one) (db_of propose_one)
      scheduled-IsBacked propose_one_ok

consume_run_event-IsBacked_example : IsBacked (db_of confirm_one)
consume_run_event-IsBacked_example =
    consume_run_event-IsBacked confirmed 71 1003 (db_of propose_one) (db_of confirm_one)
      proposed-IsBacked confirm_one_ok
