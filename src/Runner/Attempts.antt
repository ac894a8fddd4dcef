-- ===== src/Runner/Attempts.antt =====
-- `schedule`, `_start_attempt` and `_fail_start` of services/agent-runner/agent_runner/service.py
-- and `has_capacity` of capacity.py. What the container backend does stands between transactions.
use porfirium.Prelude.{
  ℕ, ◌+◌, Bool, true, false, ◌&&◌, ◌||◌, not, Option, none, some, [], ◌∷◌, Uuid, Time, ◌==◌, ltb,
  holds, if◌then◌else◌, is_some, Table, lookup, put, update_where, count, Result, ok, ◌>>=◌, ◌>>◌,
  raise_if, or_raise,
}
use porfirium.Runner.State.{
  Run, Attempt, Db, Error, RunState, AttemptState, TerminalCode, run_not_found, integrity_violation,
  is_active, is_schedulable, is_live,
}

pub record CapacityLimits : Type 0 where
  pub global_runs : ℕ
  pub per_user_runs : ℕ

-- `CapacityLimits.__post_init__`
unfoldable pub limits_ok : CapacityLimits → Bool
limits_ok l =
    not (ltb l.global_runs 1 || ltb l.per_user_runs 1) && not (ltb l.global_runs l.per_user_runs)

abbrev pub counts_globally : Run → Bool
counts_globally r = is_active r.state

abbrev pub counts_for : Uuid → Run → Bool
counts_for user r = r.admission.user_id == user && is_active r.state

unfoldable pub has_capacity : Uuid → CapacityLimits → Table Run → Bool
has_capacity user l runs =
    ltb (count counts_globally runs) l.global_runs
    && ltb (count (counts_for user) runs) l.per_user_runs

-- `SELECT coalesce(max(attempt_number),0) FROM attempts WHERE run_id=run`
unfoldable pub max_number : Uuid → Table Attempt → ℕ
max_number run [] = 0
max_number run ((_, a) ∷ rows) =
    let rest = max_number run rows in
    if a.run_id == run && ltb rest a.attempt_number then a.attempt_number else rest

-- Whether another row of the run forbids one with this number and epoch: `UNIQUE(run_id,
-- attempt_number)`, `UNIQUE(run_id, lease_epoch)`, and one live attempt for each run.
unfoldable pub clashes : Uuid → ℕ → ℕ → Table Attempt → Bool
clashes run number epoch [] = false
clashes run number epoch ((_, a) ∷ rows) =
    (a.run_id == run && (a.attempt_number == number || a.lease_epoch == epoch || is_live a.state))
    || clashes run number epoch rows

-- Whether a live attempt of the run other than this one is there.
unfoldable pub other_live : Uuid → Uuid → Table Attempt → Bool
other_live run attempt [] = false
other_live run attempt ((id, a) ∷ rows) =
    (a.run_id == run && is_live a.state && not (id == attempt)) || other_live run attempt rows

unfoldable pub new_attempt : Uuid → ℕ → ℕ → Time → Attempt
new_attempt run number epoch deadline = record {
  run_id = run;
  attempt_number = number;
  lease_epoch = epoch;
  state = AttemptState.starting;
  container_id = none;
  deadline_at = deadline;
  started_at = none;
  ended_at = none;
  visible_output = false;
  active_message_id = none;
}

-- `INSERT INTO attempts`
unfoldable pub insert_attempt : Uuid → Attempt → Table Attempt → Result Error (Table Attempt)
insert_attempt id a rows = do
  raise_if (is_some (lookup id rows)) integrity_violation
  raise_if (clashes a.run_id a.attempt_number a.lease_epoch rows) integrity_violation
  ok (put id a rows)

-- The writes of `schedule`.
unfoldable pub begin : Uuid → Uuid → Attempt → Run → Time → Db → Result Error (Option Uuid × Db)
begin run attempt_id a row now d = do
  attempts ← insert_attempt attempt_id a d.attempts
  ok (
    some attempt_id,
    record d {
      attempts = attempts;
      runs =
          put run
            (record row {
              state = RunState.starting;
              active_attempt_id = some attempt_id;
              lease_epoch = a.lease_epoch;
              updated_at = now;
            })
            d.runs;
    },
  )

-- The transaction of `schedule`: the new attempt's id, or `none` where nothing is to start now.
unfoldable pub schedule : CapacityLimits → Uuid → Uuid → Time → Db → Result Error (Option Uuid × Db)
schedule l run attempt_id now d = do
  row ← or_raise (lookup run d.runs) run_not_found
  let number = max_number run d.attempts + 1
  let a = new_attempt run number (row.lease_epoch + 1) row.deadline_at
  if not (is_schedulable row.state) || is_some row.active_attempt_id
      then ok (none, d)
      else if not (has_capacity row.admission.user_id l d.runs)
      then ok (none, d)
      else begin run attempt_id a row now d

abbrev pub always : Attempt → Bool
always a = true

abbrev pub active_is : Uuid → Run → Bool
active_is attempt r = holds r.active_attempt_id attempt

-- `_start_attempt` once the container exists
unfoldable pub record_container : Uuid → Uuid → Db → Db
record_container attempt container d = record d {
  attempts =
      update_where attempt always (λ a. record a { container_id = some container }) d.attempts;
}

-- `_start_attempt` once the container has started. The update of the attempt is unconditional; the
-- index of live attempts may refuse it.
unfoldable pub mark_running : Uuid → Uuid → Time → Db → Result Error Db
mark_running run attempt now d = do
  raise_if (other_live run attempt d.attempts) integrity_violation
  ok (record d {
    attempts =
        update_where attempt always
          (λ a. record a { state = AttemptState.running; started_at = some now }) d.attempts;
    runs =
        update_where run (active_is attempt)
          (λ r. record r { state = RunState.running; updated_at = now }) d.runs;
  })

unfoldable pub fail_start : Uuid → Uuid → Time → Db → Db
fail_start run attempt now d = record d {
  attempts =
      update_where attempt always
        (λ a. record a { state = AttemptState.failed; ended_at = some now }) d.attempts;
  runs =
      update_where run (active_is attempt)
        (λ r. record r {
          state = RunState.failed;
          terminal_code = some TerminalCode.attempt_start_failed;
          active_attempt_id = none;
          updated_at = now;
        })
        d.runs;
}
