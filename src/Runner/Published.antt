-- ===== src/Runner/Published.antt =====
-- The outbox tells of a run's completion at most once, and only when the run is completed
-- (services/agent-runner/agent_runner/completion.py).
use porfirium.Prelude.{
  succeeds-split, ℕ, ◌+◌, ◌≤◌, ◌≡◌, ap, ◌⊎◌, inl, inr, Bool, true, false, Option, none, some, ◌∷◌,
  Uuid, Key, Time, ◌==◌, if◌then◌else◌, Table, lookup, count, count-put, indicator, Holds, ok,
  arith, Option-cases, Bool-cases, lookup-update_where,
}
use porfirium.Runner.State.{
  Run, RunState, Attempt, Completion, Event, schedule_command, message_interrupted, run_cancelled,
  run_completed, Db, RunAdmission, SignedSpecification, is_completed, is_reconciling, enqueue,
  event_metadata, get_run,
}
use porfirium.Runner.Admission.{admit, admit_new}
use porfirium.Runner.Attempts.{schedule, begin, record_container, mark_running, fail_start}
use porfirium.Runner.Cancellation.{
  Cancelling, cancel_begin, cancel_finish, enqueue_interrupted, attempt_id_of,
}
use porfirium.Runner.Suspension.{
  SuspensionCommitted, suspend_begin, begin_suspension, suspend_finish,
}
use porfirium.Runner.Loss.{Candidate, handle_attempt_loss, enqueue_lost}
use porfirium.Runner.Completion.{
  RunEvent, EventBody, result_proposed, messages_committed, checkpoint_committed, message_started,
  malformed, unsupported, Proposal, consume_run_event, apply_event, propose, insert_proposal,
  confirm_messages, confirm_checkpoint, converge, apply_confirmations, finish, complete,
}
use porfirium.Runner.Effects.{schedule-cases, suspend_begin-runs}
use porfirium.Runner.Converging.{
  propose-cases, confirm_messages-SameRuns, confirm_checkpoint-SameRuns,
  apply_confirmations-SameRuns, finish-cases, start_message-runs, consume_run_event-cases,
}
use porfirium.Runner.Terminal.{
  IsIdle, Keeps, Step-Keeps, Steps-IsIdle, insert_proposal-Keeps, complete-Keeps,
}
use porfirium.Runner.Steps.{
  Config, Step, admitted, scheduled, recorded, marked, start_failed, cancel_begun, cancel_finished,
  suspend_begun, suspend_finished, attempt_lost, consumed, Steps, here, next,
}

abbrev pub completes : Uuid → Event → Bool
completes run (run_completed m _ _) = m.run_id == run
completes run _ = false

abbrev pub run_done : Run → Bool
run_done r = is_completed r.state

-- For each run, no more completion events than it is completed.
abbrev pub IsPublishedOnce : Db → Type 0
IsPublishedOnce d =
    (run : Uuid) → count (completes run) d.outbox ≤ indicator run_done (lookup run d.runs)

count-enqueue :
    (run event_id : Uuid) (e : Event) (t : Table Event)
    → count (completes run) (enqueue event_id e t)
      ≤ count (completes run) t + (if completes run e then 1 else 0)
unfolding enqueue
count-enqueue run event_id e t = ground (arith, count-put (completes run) event_id e t)

enqueue_interrupted-quiet :
    (k run : Uuid) (row : Run) (i cause : Uuid) (now : Time) (x : Option (Uuid × Attempt))
    (t : Table Event)
    → count (completes k) (enqueue_interrupted run row i cause now x t) ≤ count (completes k) t
unfolding enqueue_interrupted
enqueue_interrupted-quiet k run row i cause now none t = omega arith
enqueue_interrupted-quiet k run row i cause now (some (id, a)) t =
    elim (Option-cases a.active_message_id) [
      | inl silent ↦ rw silent (omega arith)
      | inr (m, said) ↦ rw said (
          ground (
            arith,
            count-enqueue k i
                (message_interrupted (event_metadata run row cause now) id row.lease_epoch m true)
                t,
          ))
    ]

enqueue_lost-quiet :
    (k : Uuid) (c : Candidate) (event_id : Uuid) (now : Time) (t : Table Event)
    → count (completes k) (enqueue_lost c event_id now t) ≤ count (completes k) t
unfolding enqueue_lost
enqueue_lost-quiet k c event_id now t = elim (Option-cases c.attempt.active_message_id) [
  | inl silent ↦ rw silent (omega arith)
  | inr (m, said) ↦ rw said (
      ground (
        arith,
        count-enqueue k event_id
            (message_interrupted (event_metadata c.run_id c.run c.attempt_id now) c.attempt_id
              c.run.lease_epoch m false)
            t,
      ))
]

abbrev Quiet : Db → Db → Type 0
Quiet d d' = (run : Uuid) → count (completes run) d'.outbox ≤ count (completes run) d.outbox

admit-Quiet :
    (g : Config) (a : RunAdmission) (key : Key) (spec : SignedSpecification) (event_id : Uuid)
    (now : Time) (d d' : Db) {r : Run}
    → admit g.digest g.payload_digest g.attempt_timeout_seconds a key spec event_id now d
      ≡ ok (r, d')
    → Quiet d d'
unfolding admit admit_new get_run
admit-Quiet g a key spec event_id now d d' e run =
    ground (arith, count-enqueue run event_id (schedule_command a.run_id) d.outbox)

schedule-Quiet :
    (g : Config) (run attempt_id : Uuid) (now : Time) (d d' : Db) {x : Option Uuid}
    → schedule g.limits run attempt_id now d ≡ ok (x, d')
    → Quiet d d'
unfolding begin
schedule-Quiet g run attempt_id now d d' e k =
    elim (schedule-cases g.limits run attempt_id now d d' e) [
      | inl (_, same) ↦ ground arith
      | inr (row, _, _, _, _, begun) ↦ ground arith
    ]

cancel_finish-Quiet :
    (run : Uuid) (row : Run) (attempt : Option (Uuid × Attempt)) (i event_id cause : Uuid)
    (now : Time) (d d' : Db) {r : Run}
    → cancel_finish run row attempt i event_id cause now d ≡ ok (r, d')
    → Quiet d d'
unfolding cancel_finish get_run
cancel_finish-Quiet run row attempt i event_id cause now d d' e k = ground (
  arith,
  enqueue_interrupted-quiet k run row i cause now attempt d.outbox,
  count-enqueue k event_id
      (run_cancelled (event_metadata run row cause now) (attempt_id_of attempt) row.lease_epoch)
      (enqueue_interrupted run row i cause now attempt d.outbox),
)

handle_attempt_loss-Quiet :
    (n : ℕ) (c : Candidate) (event_id : Uuid) (now : Time) (d : Db)
    → Quiet d (handle_attempt_loss n c event_id now d)
unfolding handle_attempt_loss
handle_attempt_loss-Quiet n c event_id now d k =
    ground (arith, enqueue_lost-quiet k c event_id now d.outbox)

suspend_begin-Quiet :
    (e : SuspensionCommitted) (now : Time) (d d' : Db) {x : Option Run}
    → suspend_begin e now d ≡ ok (x, d')
    → Quiet d d'
unfolding begin_suspension
suspend_begin-Quiet e now d d' h k = elim (suspend_begin-runs e now d d' h) [
  | inl same ↦ ground arith
  | inr new ↦ ground arith
]

cancel_begin-Quiet :
    (run : Uuid) (now : Time) (d d' : Db) {x : Cancelling}
    → cancel_begin run now d ≡ ok (x, d')
    → Quiet d d'
unfolding cancel_begin
cancel_begin-Quiet run now d d' h k = ground arith

-- A completed run stays completed, so a quiet transaction keeps the outbox right.
Quiet-IsPublishedOnce :
    (d d' : Db)
    → Quiet d d'
    → Keeps d.runs d'.runs
    → Holds IsIdle d.runs
    → IsPublishedOnce d
    → IsPublishedOnce d'
Quiet-IsPublishedOnce d d' quiet keeps idle once run = elim (Option-cases (lookup run d.runs)) [
  | inl absent ↦ ground (arith, quiet run, once run)
  | inr (r, found) ↦ elim (Bool-cases (is_completed r.state)) [
    | inl done ↦
        let still : lookup run d'.runs ≡ some r =
          keeps.0 run r found (ground arith, idle run r found (ground arith)) in
        ground (arith, quiet run, once run)
    | inr going ↦ ground (arith, quiet run, once run)
  ]
]

insert_proposal-Quiet :
    (run : Uuid) (r : Run) (event_id : Uuid) (p : Proposal) (now : Time) (d : Db)
    → Quiet d (insert_proposal run r event_id p now d)
unfolding insert_proposal
insert_proposal-Quiet run r event_id p now d k = omega arith

complete-IsPublishedOnce :
    (run : Uuid) (r : Run) (c : Completion) (event_id : Uuid) (now : Time) (d : Db)
    → lookup run d.runs ≡ some r
    → Holds IsIdle d.runs
    → IsPublishedOnce d
    → IsPublishedOnce (complete run r c event_id now d)
unfolding complete event_metadata
complete-IsPublishedOnce run r c event_id now d found idle once k =
    elim (Bool-cases (is_reconciling r.state)) [
      | inl ready ↦ ground (
        arith,
        once k,
        lookup-update_where run k (λ r. is_reconciling r.state) (completed_row now) d.runs,
        count-enqueue k event_id
            (run_completed (event_metadata run r c.proposal_event_id now) c.attempt_id
              c.lease_epoch)
            d.outbox,
      )
      | inr other ↦
          Quiet-IsPublishedOnce d (complete run r c event_id now d) (λ j. ground arith)
            (complete-Keeps run r c event_id now d) idle once k
    ]
  where
    completed_row : Time → Run → Run
    completed_row t r = record r {
      state = RunState.completed;
      terminal_code = none;
      active_attempt_id = none;
      updated_at = t;
    }

converge-IsPublishedOnce :
    (run event_id : Uuid) (now : Time) (d d' : Db)
    → converge run event_id now d ≡ ok d'
    → Holds IsIdle d.runs
    → IsPublishedOnce d
    → IsPublishedOnce d'
unfolding converge
converge-IsPublishedOnce run event_id now d d' e idle once =
    let (m, applied, finished) = succeeds-split (apply_confirmations run d) _ e in
    let (same_runs, _, same_outbox) = apply_confirmations-SameRuns run d m applied in
    let eq : d' ≡ finish run event_id now m = cc in
    let idle' : Holds IsIdle m.runs = rw same_runs idle in
    let once' : IsPublishedOnce m = rw (same_runs, same_outbox) once in
    rw eq (elim (finish-cases run event_id now m) [
      | inl still ↦ rw still once'
      | inr (r, c, found, _, _, _, new) ↦
          rw new (complete-IsPublishedOnce run r c event_id now m found idle' once')
    ])

apply_event-IsPublishedOnce :
    (e : RunEvent) (r : Run) (new_id : Uuid) (now : Time) (d d' : Db)
    → apply_event e r new_id now d ≡ ok d'
    → Holds IsIdle d.runs
    → IsPublishedOnce d
    → IsPublishedOnce d'
unfolding apply_event
apply_event-IsPublishedOnce e r new_id now d d' h idle once = go e.body h
  where
    same :
        (m : Db)
        → m.runs ≡ d.runs
        → m.outbox ≡ d.outbox
        → converge e.run_id new_id now m ≡ ok d'
        → IsPublishedOnce d'
    same m a b c =
        converge-IsPublishedOnce e.run_id new_id now m d' c (rw a idle) (λ k. rw (a, b) (once k))

    go :
        (b : EventBody)
        → apply_event (record e { body = b }) r new_id now d ≡ ok d'
        → IsPublishedOnce d'
    go (result_proposed p) h =
        let (m, proposed, c) = succeeds-split (propose e.run_id r e.id p now d) _ h in
        let (_, effect) = propose-cases e.run_id r e.id p now d m proposed in
        elim effect [
          | inl old ↦ same m (ap (λ (x : Db). x.runs) old) (ap (λ (x : Db). x.outbox) old) c
          | inr (_, new) ↦
              let d₁ = insert_proposal e.run_id r e.id p now d in
              let keeps = insert_proposal-Keeps e.run_id r e.id p now d in
              converge-IsPublishedOnce e.run_id new_id now m d' c (rw new (keeps.1 idle)) (
                rw new (
                  Quiet-IsPublishedOnce d d₁ (λ k. insert_proposal-Quiet e.run_id r e.id p now d k)
                    keeps idle once))
        ]
    go (messages_committed payload) h =
        let (m, confirmed, c) = succeeds-split (confirm_messages e.run_id payload d) _ h in
        let (a, _, b) = confirm_messages-SameRuns e.run_id payload d m confirmed in same m a b c
    go (checkpoint_committed payload) h =
        let (m, confirmed, c) = succeeds-split (confirm_checkpoint e.run_id payload d) _ h in
        let (a, _, b) = confirm_checkpoint-SameRuns e.run_id payload d m confirmed in same m a b c
    go (message_started attempt epoch message) h =
        let (a, b, _) = start_message-runs r attempt epoch message d d' h in λ k. rw (a, b) (once k)
    go malformed h = cc
    go unsupported h = cc

consume_run_event-IsPublishedOnce :
    (e : RunEvent) (new_id : Uuid) (now : Time) (d d' : Db) {x : Bool}
    → consume_run_event e new_id now d ≡ ok (x, d')
    → Holds IsIdle d.runs
    → IsPublishedOnce d
    → IsPublishedOnce d'
consume_run_event-IsPublishedOnce e new_id now d d' h idle once =
    elim (consume_run_event-cases e new_id now d d' h) [
      | inl (_, same) ↦ rw same once
      | inr (r, _, _, _, _, applied) ↦
          apply_event-IsPublishedOnce e r new_id now (record d { inbox = e.id ∷ d.inbox }) d'
            applied idle once
    ]

module _ (g : Config) where
  -- All transactions but the consumption of an event are quiet.
  Step-Quiet_or_IsPublishedOnce :
      {d d' : Db}
      → Step g d d'
      → Quiet d d' ⊎ (Holds IsIdle d.runs → IsPublishedOnce d → IsPublishedOnce d')
  unfolding record_container mark_running fail_start suspend_finish
  Step-Quiet_or_IsPublishedOnce {d} {d'} (admitted a key spec event_id now r e) =
      inl (admit-Quiet g a key spec event_id now d d' e)
  Step-Quiet_or_IsPublishedOnce {d} {d'} (scheduled run attempt_id now x e) =
      inl (schedule-Quiet g run attempt_id now d d' e)
  Step-Quiet_or_IsPublishedOnce (recorded attempt container e) = inl (λ k. ground arith)
  Step-Quiet_or_IsPublishedOnce (marked run attempt now e) = inl (λ k. ground arith)
  Step-Quiet_or_IsPublishedOnce (start_failed run attempt now e) = inl (λ k. ground arith)
  Step-Quiet_or_IsPublishedOnce {d} {d'} (cancel_begun run now x e) =
      inl (cancel_begin-Quiet run now d d' e)
  Step-Quiet_or_IsPublishedOnce {d} {d'}
        (cancel_finished run row attempt i event_id cause now r e) =
      inl (cancel_finish-Quiet run row attempt i event_id cause now d d' e)
  Step-Quiet_or_IsPublishedOnce {d} {d'} (suspend_begun e now x h) =
      inl (suspend_begin-Quiet e now d d' h)
  Step-Quiet_or_IsPublishedOnce (suspend_finished e now h) = inl (λ k. ground arith)
  Step-Quiet_or_IsPublishedOnce {d} (attempt_lost c event_id now _ e) =
      inl (rw e (handle_attempt_loss-Quiet g.max_attempts c event_id now d))
  Step-Quiet_or_IsPublishedOnce {d} {d'} (consumed e new_id now x h) =
      inr (consume_run_event-IsPublishedOnce e new_id now d d' h)

  Step-IsPublishedOnce :
      {d d' : Db} → Step g d d' → Holds IsIdle d.runs → IsPublishedOnce d → IsPublishedOnce d'
  Step-IsPublishedOnce {d} {d'} st idle once = elim (Step-Quiet_or_IsPublishedOnce st) [
    | inl quiet ↦ Quiet-IsPublishedOnce d d' quiet (Step-Keeps g st) idle once
    | inr kept ↦ kept idle once
  ]

  -- Through every interleaving of transactions the outbox holds at most one completion event of a
  -- run, and none unless the run is completed.
  pub Steps-IsPublishedOnce :
      {d d' : Db} → Holds IsIdle d.runs → IsPublishedOnce d → Steps g d d' → IsPublishedOnce d'
  Steps-IsPublishedOnce idle once here = once
  Steps-IsPublishedOnce idle once (next ss st) =
      Step-IsPublishedOnce st (Steps-IsIdle g idle ss) (Steps-IsPublishedOnce idle once ss)
