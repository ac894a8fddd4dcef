-- ===== src/Runner/Capacity.antt =====
-- The capacity limits (services/agent-runner/agent_runner/capacity.py and `schedule` of service.py).
use porfirium.Prelude.{
  ◌+◌, ◌≤◌, ◌≡◌, inl, inr, some, Uuid, Time, lookup, count, count-put, lookup-put, ok, arith,
}
use porfirium.Runner.State.{Run, RunState, Db}
use porfirium.Runner.Attempts.{
  CapacityLimits, schedule, has_capacity, counts_globally, counts_for, new_attempt,
}
use porfirium.Runner.Effects.{schedule-cases, begin-rows}

-- A schedule that starts an attempt leaves no more active runs than the limits allow, of all users
-- together and of the run's own user, and the run holds its one attempt at the next epoch.
pub schedule_within_limits :
    (l : CapacityLimits) (run attempt_id a : Uuid) (now : Time) (d d' : Db)
    → schedule l run attempt_id now d ≡ ok (some a, d')
    → (r : Run) × (lookup run d.runs ≡ some r)
      × (count counts_globally d'.runs ≤ l.global_runs)
      × (count (counts_for r.admission.user_id) d'.runs ≤ l.per_user_runs)
      × (lookup run d'.runs
          ≡ some (record r {
            state = RunState.starting;
            active_attempt_id = some attempt_id;
            lease_epoch = r.lease_epoch + 1;
            updated_at = now;
          }))
unfolding has_capacity new_attempt
schedule_within_limits l run attempt_id a now d d' e =
    elim (schedule-cases l run attempt_id now d d' e) [
      | inl (x, _) ↦ absurd (ground arith)
      | inr (row, found, _, _, room, begun) ↦
          let (_, _, _, new) = begin-rows run attempt_id _ row now d d' begun in
          (
            row,
            found,
            rw new (ground (arith, count-put counts_globally run (started row) d.runs)),
            rw new (
                ground
                  (arith, count-put (counts_for row.admission.user_id) run (started row) d.runs)),
            rw new (ground (arith, lookup-put run run (started row) d.runs)),
          )
    ]
  where
    started : Run → Run
    started row = record row {
      state = RunState.starting;
      active_attempt_id = some attempt_id;
      lease_epoch = row.lease_epoch + 1;
      updated_at = now;
    }
