-- ===== src/Runner/Loss.antt =====
-- `reconcile` and `_handle_attempt_loss` of services/agent-runner/agent_runner/service.py.
use porfirium.Prelude.{
  ℕ, ◌+◌, Bool, true, false, ◌&&◌, ◌||◌, not, none, some, List, [], ◌∷◌, Uuid, Time, ◌==◌, ltb,
  holds, length, if◌then◌else◌, Table, lookup, update_where,
}
use porfirium.Runner.State.{
  Run, Attempt, Db, RunState, AttemptState, TerminalCode, Event, message_interrupted, enqueue,
  event_metadata,
}
use porfirium.Runner.Attempts.{always, active_is}

-- A row of the query in `reconcile`: a run and its active attempt, as they were read.
pub record Candidate : Type 0 where
  pub run_id : Uuid
  pub run : Run
  pub attempt_id : Uuid
  pub attempt : Attempt

-- `_retry_allowed`
unfoldable pub retry_allowed : ℕ → Time → ℕ → Time → Bool
retry_allowed attempt_number deadline_at max_attempts now =
    ltb attempt_number max_attempts && ltb now deadline_at

unfoldable pub enqueue_lost : Candidate → Uuid → Time → Table Event → Table Event
enqueue_lost c event_id now t = elim (c.attempt.active_message_id) [
  | none ↦ t
  | some m ↦
      enqueue event_id
        (message_interrupted (event_metadata c.run_id c.run c.attempt_id now) c.attempt_id
          c.run.lease_epoch m false)
        t
]

unfoldable pub mark_lost : Candidate → Time → Table Attempt → Table Attempt
mark_lost c now =
    update_where c.attempt_id always
      (λ a. record a { state = AttemptState.failed; ended_at = some now })

unfoldable pub reschedule : Candidate → Time → Table Run → Table Run
reschedule c now =
    update_where c.run_id (active_is c.attempt_id)
      (λ r. record r { state = RunState.scheduled; active_attempt_id = none; updated_at = now })

unfoldable pub give_up : Candidate → Time → Table Run → Table Run
give_up c now = update_where c.run_id (active_is c.attempt_id) (λ r. record r {
  state = RunState.failed;
  terminal_code = some (
      if c.attempt.visible_output
      then TerminalCode.attempt_lost_after_output
      else TerminalCode.attempt_retry_exhausted);
  active_attempt_id = none;
  updated_at = now;
})

-- One transaction.
unfoldable pub handle_attempt_loss : ℕ → Candidate → Uuid → Time → Db → Db
unfolding retry_allowed enqueue_lost mark_lost reschedule give_up
handle_attempt_loss max_attempts c event_id now d =
    if not c.attempt.visible_output
      && retry_allowed c.attempt.attempt_number c.run.deadline_at max_attempts now
    then record d { attempts = mark_lost c now d.attempts; runs = reschedule c now d.runs }
    else record d {
      attempts = mark_lost c now d.attempts;
      runs = give_up c now d.runs;
      outbox = enqueue_lost c event_id now d.outbox;
    }

-- The states that `reconcile` looks for.
abbrev pub is_reconcilable : RunState → Bool
is_reconcilable RunState.starting = true
is_reconcilable RunState.running = true
is_reconcilable RunState.cancelling = true
is_reconcilable _ = false

-- The join of `runs` and `attempts`.
unfoldable pub candidates : Table Run → Table Attempt → List Candidate
candidates [] attempts = []
candidates ((id, r) ∷ runs) attempts =
    let rest = candidates runs attempts in
    elim (r.active_attempt_id) [
      | none ↦ rest
      | some a ↦ elim (lookup a attempts) [
        | none ↦ rest
        | some row ↦
            if is_reconcilable r.state
            then record { run_id = id; run = r; attempt_id = a; attempt = row } ∷ rest
            else rest
      ]
    ]

unfoldable pub container_runs : (Uuid → Bool) → Candidate → Bool
container_runs runs c = elim (c.attempt.container_id) [ none ↦ false | some id ↦ runs id ]

-- The loop over the rows, when no other transaction comes between: the count and the database.
unfoldable pub repair : ℕ → (Uuid → Bool) → (Uuid → Uuid) → Time → List Candidate → ℕ × Db → ℕ × Db
repair max_attempts runs fresh now [] acc = acc
repair max_attempts runs fresh now (c ∷ cs) (n, d) = repair max_attempts runs fresh now cs (
    if container_runs runs c
    then (n, d)
    else (n + 1, handle_attempt_loss max_attempts c (fresh c.attempt_id) now d))

-- A managed container with its network, which bears the attempt's id.
unfoldable pub is_recorded : Uuid × Uuid → Table Attempt → Bool
is_recorded p [] = false
is_recorded p ((id, a) ∷ rows) = (holds a.container_id p.0 && id == p.1) || is_recorded p rows

unfoldable pub orphans : List (Uuid × Uuid) → Table Attempt → List (Uuid × Uuid)
orphans [] rows = []
orphans (p ∷ ps) rows = let rest = orphans ps rows in if is_recorded p rows then rest else p ∷ rest

-- The count, the containers removed besides, and the database. `fresh` gives the ids of new events.
unfoldable pub reconcile :
    ℕ → (Uuid → Bool) → (Uuid → Uuid) → List (Uuid × Uuid) → Time → Db → ℕ × List (Uuid × Uuid) × Db
reconcile max_attempts runs fresh managed now d =
    let (n, d') = repair max_attempts runs fresh now (candidates d.runs d.attempts) (0, d) in
    let removed = orphans managed d'.attempts in (n + length removed, removed, d')
