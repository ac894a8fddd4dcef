-- ===== src/Runner/Suspension.antt =====
-- `suspend` of services/agent-runner/agent_runner/service.py: two transactions, and between them
-- the removal of the container. The envelope's identities are taken as parsed.
use porfirium.Prelude.{
  ℕ, Bool, ◌||◌, ◌&&◌, Option, none, some, ◌∷◌, Uuid, Time, ◌==◌, holds, elem, if◌then◌else◌,
  lookup, update_where, Result, ok, err, ◌>>=◌, or_raise,
}
use porfirium.Runner.State.{
  Run, Db, Error, RunState, AttemptState, suspension_stale, is_running, is_suspending, is_waiting,
}
use porfirium.Runner.Attempts.{always}

pub record SuspensionCommitted : Type 0 where
  pub id : Uuid
  pub run_id : Uuid
  pub attempt_id : Uuid
  pub lease_epoch : ℕ

-- `suspension_stale` is raised unless this holds.
unfoldable pub is_current : SuspensionCommitted → Run → Bool
is_current e r =
    holds r.active_attempt_id e.attempt_id
    && r.lease_epoch == e.lease_epoch
    && (is_running r.state || is_suspending r.state)

-- The writes of the first transaction.
unfoldable pub begin_suspension : SuspensionCommitted → Time → Db → Db
begin_suspension e now d = record d {
  inbox = if elem e.id d.inbox then d.inbox else e.id ∷ d.inbox;
  runs =
      update_where e.run_id (λ r. is_running r.state)
        (λ r. record r { state = RunState.suspending; updated_at = now }) d.runs;
  attempts =
      update_where e.attempt_id always (λ a. record a { state = AttemptState.stopping }) d.attempts;
}

-- `none`: the run is suspended already, and `suspend` returns false.
unfoldable pub suspend_begin : SuspensionCommitted → Time → Db → Result Error (Option Run × Db)
unfolding is_current begin_suspension
suspend_begin e now d = do
  r ← or_raise (lookup e.run_id d.runs) suspension_stale
  if elem e.id d.inbox && is_waiting r.state
      then ok (none, d)
      else if is_current e r
      then ok (some r, begin_suspension e now d)
      else err suspension_stale

unfoldable pub suspend_finish : SuspensionCommitted → Time → Db → Db
suspend_finish e now d = record d {
  attempts =
      update_where e.attempt_id always
        (λ a. record a { state = AttemptState.exited; ended_at = some now }) d.attempts;
  runs =
      update_where e.run_id (λ r. is_suspending r.state)
        (λ r. record r {
          state = RunState.waiting_for_input;
          active_attempt_id = none;
          updated_at = now;
        })
        d.runs;
}
