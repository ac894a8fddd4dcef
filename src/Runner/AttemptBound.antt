-- ===== src/Runner/AttemptBound.antt =====
-- Through every interleaving of transactions of services/agent-runner/agent_runner a run has at most
-- `max_attempts` attempts.
use porfirium.Prelude.{
  succeeds-split, ℕ, ◌≤◌, ◌<◌, ◌≡◌, refl, ap, ◌⊎◌, inl, inr, Bool, false, Option, none, some, ◌∷◌,
  Uuid, Key, Time, Table, lookup, update_where, ok, arith, Bool-cases,
}
use porfirium.Runner.State.{
  get_run, AttemptState, Run, RunState, Attempt, Completion, Db, RunAdmission, SignedSpecification,
  is_schedulable, is_reconciling,
}
use porfirium.Runner.Admission.{admit, admit_new}
use porfirium.Runner.Attempts.{max_number, always, mark_running, fail_start, record_container}
use porfirium.Runner.Cancellation.{
  Cancelling, cancel_begin, cancel_finish, coalesce, end_attempt, stop_attempt,
}
use porfirium.Runner.Suspension.{
  SuspensionCommitted, suspend_begin, begin_suspension, suspend_finish,
}
use porfirium.Runner.Completion.{
  RunEvent, EventBody, result_proposed, messages_committed, checkpoint_committed, message_started,
  malformed, unsupported, Proposal, consume_run_event, apply_event, propose, insert_proposal,
  confirm_messages, confirm_checkpoint, converge, apply_confirmations, finish, complete,
}
use porfirium.Runner.Effects.{
  mark_running-runs, cancel_begin-cases, cancel_finish-runs, suspend_begin-runs,
}
use porfirium.Runner.Retries.{
  SameNumbers, SameNumbers-update_where, IsBounded, update_where-IsBounded, SameNumbers-refl,
  SameNumbers-IsBounded,
}
use porfirium.Runner.Steps.{
  Config, Step, admitted, scheduled, recorded, marked, start_failed, cancel_begun, cancel_finished,
  suspend_begun, suspend_finished, attempt_lost, consumed, Steps, here, next,
}
use porfirium.Runner.Bounded.{admit-IsBounded, schedule-IsBounded, handle_attempt_loss-IsBounded}
use porfirium.Runner.Converging.{
  propose-cases, confirm_messages-SameRuns, confirm_checkpoint-SameRuns,
  apply_confirmations-SameRuns, finish-cases, consume_run_event-cases, start_message-runs,
}

admit-attempts :
    (g : Config) (a : RunAdmission) (key : Key) (spec : SignedSpecification) (event_id : Uuid)
    (now : Time) (d d' : Db) {r : Run}
    → admit g.digest g.payload_digest g.attempt_timeout_seconds a key spec event_id now d
      ≡ ok (r, d')
    → d'.attempts ≡ d.attempts
unfolding admit admit_new get_run
admit-attempts g a key spec event_id now d d' e = ground arith

mark_running-attempts :
    (run attempt : Uuid) (now : Time) (d d' : Db)
    → mark_running run attempt now d ≡ ok d'
    → SameNumbers d.attempts d'.attempts
unfolding mark_running
mark_running-attempts run attempt now d d' e =
    let eq : d'.attempts
        ≡ update_where attempt always
            (λ a. record a { state = AttemptState.running; started_at = some now }) d.attempts =
      ground arith in
    rw eq (SameNumbers-update_where attempt _ d.attempts (λ a. (refl, refl)))

stop_attempt-SameNumbers : (x : Option Uuid) (t : Table Attempt) → SameNumbers t (stop_attempt x t)
unfolding stop_attempt
stop_attempt-SameNumbers none t = SameNumbers-refl t
stop_attempt-SameNumbers (some id) t = SameNumbers-update_where id _ t (λ a. (refl, refl))

end_attempt-SameNumbers :
    (now : Time) (x : Option (Uuid × Attempt)) (t : Table Attempt)
    → SameNumbers t (end_attempt now x t)
unfolding end_attempt
end_attempt-SameNumbers now none t = SameNumbers-refl t
end_attempt-SameNumbers now (some (id, _)) t = SameNumbers-update_where id _ t (λ a. (refl, refl))

cancel_begin-IsBounded :
    (n : ℕ) (run : Uuid) (now : Time) (d d' : Db) {x : Cancelling}
    → cancel_begin run now d ≡ ok (x, d')
    → IsBounded n d.runs d.attempts
    → IsBounded n d'.runs d'.attempts
unfolding cancel_begin
cancel_begin-IsBounded n run now d d' e h = elim (cancel_begin-cases run now d d' e) [
  | inl same ↦ rw same h
  | inr (row, found, alive, new) ↦
      let stopped : d'.attempts ≡ stop_attempt row.active_attempt_id d.attempts = ground arith in
      rw (new, stopped)
        (update_where-IsBounded n d.runs d.attempts _ run _ _
          (stop_attempt-SameNumbers row.active_attempt_id d.attempts) (λ r l p. (λ s. cc, l.1, l.2))
          h)
]

cancel_finish-IsBounded :
    (n : ℕ) (run : Uuid) (row : Run) (attempt : Option (Uuid × Attempt)) (i event_id cause : Uuid)
    (now : Time) (d d' : Db) {r : Run}
    → cancel_finish run row attempt i event_id cause now d ≡ ok (r, d')
    → IsBounded n d.runs d.attempts
    → IsBounded n d'.runs d'.attempts
unfolding cancel_finish get_run
cancel_finish-IsBounded n run row attempt i event_id cause now d d' e h =
    let ended : d'.attempts ≡ end_attempt now attempt d.attempts = ground arith in
    rw (cancel_finish-runs run row attempt i event_id cause now d d' e, ended)
      (update_where-IsBounded n d.runs d.attempts _ run _ _
        (end_attempt-SameNumbers now attempt d.attempts) (λ r l p. (λ s. cc, l.1, λ a e. cc)) h)

suspend_begin-IsBounded :
    (n : ℕ) (e : SuspensionCommitted) (now : Time) (d d' : Db) {x : Option Run}
    → suspend_begin e now d ≡ ok (x, d')
    → IsBounded n d.runs d.attempts
    → IsBounded n d'.runs d'.attempts
unfolding begin_suspension
suspend_begin-IsBounded n e now d d' s h = elim (suspend_begin-runs e now d d' s) [
  | inl same ↦ rw same h
  | inr new ↦ rw new (
      update_where-IsBounded n d.runs d.attempts _ e.run_id _ _
        (SameNumbers-update_where e.attempt_id _ d.attempts (λ a. (refl, refl)))
        (λ r l p. (λ s. cc, l.1, l.2)) h)
]

insert_proposal-IsBounded :
    (n : ℕ) (run : Uuid) (r : Run) (event_id : Uuid) (p : Proposal) (now : Time) (d : Db)
    → IsBounded n d.runs d.attempts
    → let d' = insert_proposal run r event_id p now d in IsBounded n d'.runs d'.attempts
unfolding insert_proposal
insert_proposal-IsBounded n run r event_id p now d h =
    update_where-IsBounded n d.runs d.attempts d.attempts run _ _ (SameNumbers-refl d.attempts)
      (λ r l p. (λ s. cc, l.1, l.2)) h

complete-IsBounded :
    (n : ℕ) (run : Uuid) (r : Run) (c : Completion) (event_id : Uuid) (now : Time) (d : Db)
    → IsBounded n d.runs d.attempts
    → let d' = complete run r c event_id now d in IsBounded n d'.runs d'.attempts
unfolding complete
complete-IsBounded n run r c event_id now d h =
    let kept =
      update_where-IsBounded n d.runs d.attempts _ run (λ r. is_reconciling r.state)
        (λ r. record r {
          state = RunState.completed;
          terminal_code = none;
          active_attempt_id = none;
          updated_at = now;
        })
        (SameNumbers-update_where c.attempt_id
          (λ a. record a { state = AttemptState.exited; ended_at = coalesce a.ended_at now })
          d.attempts (λ a. (refl, refl)))
        (λ r l p. (λ s. cc, l.1, λ a e. cc)) h in
    elim (Bool-cases (is_reconciling r.state)) [
      | inl ready ↦ rw ready kept
      | inr other ↦ rw other kept
    ]

converge-IsBounded :
    (n : ℕ) (run event_id : Uuid) (now : Time) (d d' : Db)
    → converge run event_id now d ≡ ok d'
    → IsBounded n d.runs d.attempts
    → IsBounded n d'.runs d'.attempts
unfolding converge
converge-IsBounded n run event_id now d d' e h =
    let (m, applied, finished) = succeeds-split (apply_confirmations run d) _ e in
    let (same_runs, same_attempts, _) = apply_confirmations-SameRuns run d m applied in
    let eq : d' ≡ finish run event_id now m = cc in
    let h' : IsBounded n m.runs m.attempts = rw (same_runs, same_attempts) h in
    rw eq (elim (finish-cases run event_id now m) [
      | inl still ↦ rw still h'
      | inr (r, c, _, _, _, _, new) ↦ rw new (complete-IsBounded n run r c event_id now m h')
    ])

apply_event-IsBounded :
    (n : ℕ) (e : RunEvent) (r : Run) (new_id : Uuid) (now : Time) (d d' : Db)
    → apply_event e r new_id now d ≡ ok d'
    → IsBounded n d.runs d.attempts
    → IsBounded n d'.runs d'.attempts
unfolding apply_event
apply_event-IsBounded n e r new_id now d d' s h = go e.body s
  where
    same :
        (m : Db)
        → m.runs ≡ d.runs
        → m.attempts ≡ d.attempts
        → converge e.run_id new_id now m ≡ ok d'
        → IsBounded n d'.runs d'.attempts
    same m a b c = converge-IsBounded n e.run_id new_id now m d' c (rw (a, b) h)

    go :
        (b : EventBody)
        → apply_event (record e { body = b }) r new_id now d ≡ ok d'
        → IsBounded n d'.runs d'.attempts
    go (result_proposed p) s =
        let (m, proposed, c) = succeeds-split (propose e.run_id r e.id p now d) _ s in
        let (_, effect) = propose-cases e.run_id r e.id p now d m proposed in
        elim effect [
          | inl old ↦ same m (ap (λ (x : Db). x.runs) old) (ap (λ (x : Db). x.attempts) old) c
          | inr (_, new) ↦
              converge-IsBounded n e.run_id new_id now m d' c
                (rw new (insert_proposal-IsBounded n e.run_id r e.id p now d h))
        ]
    go (messages_committed payload) s =
        let (m, confirmed, c) = succeeds-split (confirm_messages e.run_id payload d) _ s in
        let (a, b, _) = confirm_messages-SameRuns e.run_id payload d m confirmed in same m a b c
    go (checkpoint_committed payload) s =
        let (m, confirmed, c) = succeeds-split (confirm_checkpoint e.run_id payload d) _ s in
        let (a, b, _) = confirm_checkpoint-SameRuns e.run_id payload d m confirmed in same m a b c
    go (message_started attempt epoch message) s =
        let (a, _, b) = start_message-runs r attempt epoch message d d' s in
        rw (a, b)
          (SameNumbers-IsBounded n d.runs d.attempts _
            (SameNumbers-update_where attempt _ d.attempts (λ a. (refl, refl))) h)
    go malformed s = cc
    go unsupported s = cc

consume_run_event-IsBounded :
    (n : ℕ) (e : RunEvent) (new_id : Uuid) (now : Time) (d d' : Db) {x : Bool}
    → consume_run_event e new_id now d ≡ ok (x, d')
    → IsBounded n d.runs d.attempts
    → IsBounded n d'.runs d'.attempts
consume_run_event-IsBounded n e new_id now d d' s h =
    elim (consume_run_event-cases e new_id now d d' s) [
      | inl (_, same) ↦ rw same h
      | inr (r, _, _, _, _, applied) ↦
          apply_event-IsBounded n e r new_id now (record d { inbox = e.id ∷ d.inbox }) d' applied h
    ]

module _ (g : Config) where
  Step-IsBounded :
      {d d' : Db}
      → 0 < g.max_attempts
      → Step g d d'
      → IsBounded g.max_attempts d.runs d.attempts
      → IsBounded g.max_attempts d'.runs d'.attempts
  unfolding record_container fail_start suspend_finish
  Step-IsBounded {d} {d'} pos (admitted a key spec event_id now r e) h =
      admit-IsBounded g a key spec event_id now d d' pos e
        (admit-attempts g a key spec event_id now d d' e) h
  Step-IsBounded {d} {d'} pos (scheduled run attempt_id now x e) h =
      schedule-IsBounded g run attempt_id now d d' e h
  Step-IsBounded {d} {d'} pos (recorded attempt container e) h = rw e (
      SameNumbers-IsBounded g.max_attempts d.runs d.attempts _
        (SameNumbers-update_where attempt _ d.attempts (λ a. (refl, refl))) h)
  Step-IsBounded {d} {d'} pos (marked run attempt now e) h =
      rw (mark_running-runs run attempt now d d' e) (
        update_where-IsBounded g.max_attempts d.runs d.attempts d'.attempts run _ _
          (mark_running-attempts run attempt now d d' e) (λ r l p. (λ s. cc, l.1, l.2)) h)
  Step-IsBounded {d} {d'} pos (start_failed run attempt now e) h = rw e (
      update_where-IsBounded g.max_attempts d.runs d.attempts _ run _ _
        (SameNumbers-update_where attempt _ d.attempts (λ a. (refl, refl)))
        (λ r l p. (λ s. cc, l.1, λ a e. cc)) h)
  Step-IsBounded {d} {d'} pos (cancel_begun run now x e) h =
      cancel_begin-IsBounded g.max_attempts run now d d' e h
  Step-IsBounded {d} {d'} pos (cancel_finished run row attempt i event_id cause now r e) h =
      cancel_finish-IsBounded g.max_attempts run row attempt i event_id cause now d d' e h
  Step-IsBounded {d} {d'} pos (suspend_begun e now x s) h =
      suspend_begin-IsBounded g.max_attempts e now d d' s h
  Step-IsBounded {d} {d'} pos (suspend_finished e now s) h = rw s (
      update_where-IsBounded g.max_attempts d.runs d.attempts _ e.run_id _ _
        (SameNumbers-update_where e.attempt_id _ d.attempts (λ a. (refl, refl)))
        (λ r l p. (λ s. cc, l.1, λ a e. cc)) h)
  Step-IsBounded {d} {d'} pos (attempt_lost c event_id now read e) h =
      rw e (handle_attempt_loss-IsBounded g.max_attempts c event_id now d read h)
  Step-IsBounded {d} {d'} pos (consumed e new_id now x s) h =
      consume_run_event-IsBounded g.max_attempts e new_id now d d' s h

  Steps-IsBounded :
      {d d' : Db}
      → 0 < g.max_attempts
      → IsBounded g.max_attempts d.runs d.attempts
      → Steps g d d'
      → IsBounded g.max_attempts d'.runs d'.attempts
  Steps-IsBounded pos h here = h
  Steps-IsBounded pos h (next ss st) = Step-IsBounded pos st (Steps-IsBounded pos h ss)

  -- Where `max_attempts` is positive, from a database that respects the bound, whatever transactions follow: no attempt of a known run
  -- has a number above `max_attempts`, and a run that waits for another attempt is below it.
  pub attempts_bounded :
      (run : Uuid) (r : Run) {d d' : Db}
      → 0 < g.max_attempts
      → IsBounded g.max_attempts d.runs d.attempts
      → Steps g d d'
      → lookup run d'.runs ≡ some r
      → (max_number run d'.attempts ≤ g.max_attempts)
        × ((is_schedulable r.state ≡ false) ⊎ (max_number run d'.attempts < g.max_attempts))
  attempts_bounded run r pos h ss found =
      let l = (Steps-IsBounded pos h ss).0 run r found in
      (
        l.1,
        elim (Bool-cases (is_schedulable r.state)) [
          | inl waits ↦ inr (l.0 waits)
          | inr busy ↦ inl busy
        ],
      )
