-- ===== src/Runner/Cancellation.antt =====
-- `cancel` of services/agent-runner/agent_runner/service.py: two transactions, and between them the
-- removal of the container.
use porfirium.Prelude.{
  Bool, true, Option, none, some, Uuid, Time, if◌then◌else◌, Table, lookup, update_where, Result,
  ok, ◌>>=◌, or_raise,
}
use porfirium.Runner.State.{
  Run, Attempt, Db, Error, RunState, AttemptState, TerminalCode, Event, message_interrupted,
  run_cancelled, run_not_found, is_terminal, is_cancelling, enqueue, event_metadata, get_run,
}
use porfirium.Runner.Attempts.{always}

-- What the first transaction leaves to do: nothing, or the rest of the cancellation, with the rows
-- as they were read.
pub data Cancelling : Type 0 where
  finished : Run → Cancelling
  stopping : Run → Option (Uuid × Attempt) → Cancelling

unfoldable pub active_attempt : Run → Db → Option (Uuid × Attempt)
active_attempt row d = elim (row.active_attempt_id) [
  | none ↦ none
  | some id ↦ elim (lookup id d.attempts) [ none ↦ none | some a ↦ some (id, a) ]
]

unfoldable pub stop_attempt : Option Uuid → Table Attempt → Table Attempt
stop_attempt none rows = rows
stop_attempt (some id) rows =
    update_where id always (λ a. record a { state = AttemptState.stopping }) rows

abbrev pub any_run : Run → Bool
any_run r = true

abbrev pub coalesce : Option Time → Time → Option Time
coalesce none t = some t
coalesce (some u) t = some u

unfoldable pub cancel_begin : Uuid → Time → Db → Result Error (Cancelling × Db)
unfolding active_attempt stop_attempt
cancel_begin run now d = do
  row ← or_raise (lookup run d.runs) run_not_found
  if is_terminal row.state
      then ok (finished row, d)
      else ok (
        stopping row (active_attempt row d),
        record d {
          attempts = stop_attempt row.active_attempt_id d.attempts;
          runs =
              update_where run any_run
                (λ r. record r {
                  state = RunState.cancelling;
                  cancellation_requested_at = coalesce r.cancellation_requested_at now;
                  updated_at = now;
                })
                d.runs;
        },
      )

unfoldable pub end_attempt : Time → Option (Uuid × Attempt) → Table Attempt → Table Attempt
end_attempt now none rows = rows
end_attempt now (some (id, _)) rows =
    update_where id always (λ a. record a { state = AttemptState.exited; ended_at = some now }) rows

unfoldable pub enqueue_interrupted :
    Uuid → Run → Uuid → Uuid → Time → Option (Uuid × Attempt) → Table Event → Table Event
enqueue_interrupted run row event_id cause now none t = t
enqueue_interrupted run row event_id cause now (some (id, a)) t = elim (a.active_message_id) [
  | none ↦ t
  | some m ↦
      enqueue event_id
        (message_interrupted (event_metadata run row cause now) id row.lease_epoch m true) t
]

abbrev pub attempt_id_of : Option (Uuid × Attempt) → Option Uuid
attempt_id_of none = none
attempt_id_of (some (id, _)) = some id

-- `row` and `attempt` are what the first transaction read; `cause` comes from the idempotency key.
unfoldable pub cancel_finish :
    Uuid → Run → Option (Uuid × Attempt) → Uuid → Uuid → Uuid → Time → Db → Result Error (Run × Db)
unfolding end_attempt enqueue_interrupted
cancel_finish run row attempt interrupted_id event_id cause now d = do
  let d' : Db = record d {
    attempts = end_attempt now attempt d.attempts;
    runs =
        update_where run (λ r. is_cancelling r.state)
          (λ r. record r {
            state = RunState.cancelled;
            terminal_code = some TerminalCode.by_request;
            active_attempt_id = none;
            updated_at = now;
          })
          d.runs;
    outbox =
        enqueue event_id
          (run_cancelled (event_metadata run row cause now) (attempt_id_of attempt) row.lease_epoch)
          (enqueue_interrupted run row interrupted_id cause now attempt d.outbox);
  }
  r ← get_run run d'
  ok (r, d')
