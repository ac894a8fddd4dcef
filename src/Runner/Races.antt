-- ===== src/Runner/Races.antt =====
-- A cancellation and the reconciliation of lost attempts, in the order that loses the cancellation
-- (`cancel` and `reconcile` of services/agent-runner/agent_runner/service.py).
use porfirium.Prelude.{
  ℕ, ◌<◌, ◌≡◌, refl, inl, inr, Bool, false, none, some, List, Uuid, Time, ◌==◌, lookup, lookup-put,
  lookup-update_where, update_where, Returns, arith, Option-cases, ok,
}
use porfirium.Runner.State.{
  Run, RunState, Attempt, AttemptState, Db, TerminalCode, is_cancelling, is_terminal, run_cancelled,
  enqueue, get_run, event_metadata,
}
use porfirium.Runner.Attempts.{always}
use porfirium.Runner.Cancellation.{
  stopping, coalesce, any_run, stop_attempt, active_attempt, cancel_begin, cancel_finish,
  enqueue_interrupted,
}
use porfirium.Runner.Loss.{Candidate, reconcile, container_runs}
use porfirium.Runner.Repair.{
  HasKeys, HasKeys-update_where, rescheduled, lookup-enqueue_other, reconcile-again,
  reconcile-outbox,
}

-- The row of a run whose cancellation has begun.
abbrev pub cancelling_at : Time → Run → Run
cancelling_at now r = record r {
  state = RunState.cancelling;
  cancellation_requested_at = coalesce r.cancellation_requested_at now;
  updated_at = now;
}

-- The database after the first transaction of a cancellation.
abbrev begun : Uuid → Uuid → Time → Db → Db
begun run a now d = record d {
  attempts = stop_attempt (some a) d.attempts;
  runs = update_where run any_run (cancelling_at now) d.runs;
}

cancel_begin-stopping :
    (run a : Uuid) (now : Time) (d : Db) (r : Run) (row : Attempt)
    → lookup run d.runs ≡ some r
    → is_terminal r.state ≡ false
    → r.active_attempt_id ≡ some a
    → lookup a d.attempts ≡ some row
    → cancel_begin run now d ≡ ok (stopping r (some (a, row)), begun run a now d)
unfolding cancel_begin active_attempt
cancel_begin-stopping run a now d r row found live active kept =
    let read : active_attempt r d ≡ some (a, row) = ground arith in ground (arith, read)

lookup-interrupted :
    (run : Uuid) (r : Run) (i e cause : Uuid) (now : Time) (a : Uuid) (row : Attempt) (d : Db)
    → (i == e) ≡ false
    → lookup e d.outbox ≡ none
    → lookup e (enqueue_interrupted run r i cause now (some (a, row)) d.outbox) ≡ none
unfolding enqueue_interrupted
lookup-interrupted run r i e cause now a row d other absent =
    elim (Option-cases row.active_message_id) [
      | inl silent ↦ rw silent absent
      | inr (m, told) ↦ rw told (lookup-enqueue_other i e _ d.outbox other absent)
    ]

abbrev cancelled_at : Time → Run → Run
cancelled_at now y = record y {
  state = RunState.cancelled;
  terminal_code = some TerminalCode.by_request;
  active_attempt_id = none;
  updated_at = now;
}

-- The second transaction of a cancellation, where the run is not `cancelling` any more.
cancel_finish-late :
    (run : Uuid) (r x : Run) (i e cause : Uuid) (now : Time) (a : Uuid) (row : Attempt) (d : Db)
    → lookup run d.runs ≡ some x
    → x.state ≡ RunState.scheduled
    → x.active_attempt_id ≡ none
    → (i == e) ≡ false
    → lookup e d.outbox ≡ none
    → Returns (cancel_finish run r (some (a, row)) i e cause now d) λ (r', d').
      (r'.state ≡ RunState.scheduled)
      × (r'.active_attempt_id ≡ none)
      × (lookup run d'.runs ≡ some r')
      × (lookup e d'.outbox
          ≡ some (run_cancelled (event_metadata run r cause now) (some a) r.lease_epoch))
unfolding cancel_finish get_run enqueue
cancel_finish-late run r x i e cause now a row d found scheduled idle other absent =
    let kept : lookup run (update_where run (λ y. is_cancelling y.state) (cancelled_at now) d.runs)
        ≡ some x =
      ground (
        arith,
        lookup-update_where run run (λ y. is_cancelling y.state) (cancelled_at now) d.runs,
      ) in
    let fresh = lookup-interrupted run r i e cause now a row d other absent in
    let told =
      lookup-put e e (run_cancelled (event_metadata run r cause now) (some a) r.lease_epoch)
        (enqueue_interrupted run r i cause now (some (a, row)) d.outbox) in
    rw kept (scheduled, idle, kept, ground (arith, fresh, told))

-- Where a live attempt of a run has shown no output, has retries left and a deadline ahead, and its container
-- is gone, and the run is cancelled: the first transaction of `cancel` goes on to the second one. When `reconcile`
-- comes between the two, it reschedules the run, and the second transaction then reports the run as
-- `scheduled`, leaves it so, and still enqueues the event that it was cancelled. The ids of new events are new.
pub cancellation_lost :
    (n : ℕ) (runs : Uuid → Bool) (fresh : Uuid → Uuid) (managed : List (Uuid × Uuid))
    (run a interrupted_id event_id cause : Uuid) (now between later : Time) (d : Db) (r : Run)
    (row : Attempt)
    → HasKeys d.runs
    → lookup run d.runs ≡ some r
    → is_terminal r.state ≡ false
    → r.active_attempt_id ≡ some a
    → lookup a d.attempts ≡ some row
    → container_runs runs (record { run_id = run; run = r; attempt_id = a; attempt = row }) ≡ false
    → row.visible_output ≡ false
    → row.attempt_number < n
    → between < r.deadline_at
    → lookup event_id d.outbox ≡ none
    → (interrupted_id == event_id) ≡ false
    → ((x : Uuid) → (fresh x == event_id) ≡ false)
    → Returns (cancel_begin run now d) λ (c, d1).
      (c ≡ stopping r (some (a, row)))
      × Returns
          (cancel_finish run r
            (some (a, row))
            interrupted_id
            event_id
            cause
            later
            (reconcile n runs fresh managed between d1).2)
          λ (r', d').
            (r'.state ≡ RunState.scheduled)
            × (r'.active_attempt_id ≡ none)
            × (lookup run d'.runs ≡ some r')
            × (lookup event_id d'.outbox
                ≡ some (run_cancelled (event_metadata run r cause later) (some a) r.lease_epoch))
unfolding stop_attempt container_runs
cancellation_lost n runs fresh managed run a interrupted_id event_id cause now between later d r row
      keys found live active kept gone silent retries ahead absent other new =
    let d1 = begun run a now d in
    let stopped : Attempt = record row { state = AttemptState.stopping } in
    let c : Candidate = record {
      run_id = run;
      run = cancelling_at now r;
      attempt_id = a;
      attempt = stopped;
    } in
    let again =
      reconcile-again n runs fresh between managed c d1
        (HasKeys-update_where run any_run (cancelling_at now) d.runs keys)
        (ground (arith, lookup-update_where run run any_run (cancelling_at now) d.runs)) active
        (ground (
          arith,
          lookup-update_where a a always (λ x. record x { state = AttemptState.stopping })
              d.attempts,
        ))
        refl gone silent retries ahead in
    let finished =
      cancel_finish-late run r (rescheduled between (cancelling_at now r)) interrupted_id event_id
        cause later a row (reconcile n runs fresh managed between d1).2 again refl refl other
        (reconcile-outbox n runs fresh between managed event_id d1 new absent) in
    rw (cancel_begin-stopping run a now d r row found live active kept) (refl, finished)
