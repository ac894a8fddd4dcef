-- ===== src/Runner/Terminal.antt =====
-- A run that has ended stays as it is (services/agent-runner/agent_runner/service.py and
-- completion.py): through every interleaving of transactions its row does not change.
use porfirium.Prelude.{
  succeeds-split, ℕ, ◌≡◌, refl, inl, inr, Bool, true, false, Option, none, some, ◌∷◌, Uuid, Key,
  Time, not, ◌&&◌, Table, lookup, put, update_where, Holds, Holds-put, lookup-update_where,
  Holds-update_where, Frozen, Frozen-put, Frozen-update_where, ok, Bool-cases, arith,
}
use porfirium.Runner.State.{
  Run, Attempt, Completion, RunAdmission, SignedSpecification, Db, is_terminal, is_schedulable,
  is_reconciling, get_run,
}
use porfirium.Runner.Admission.{admit, admitted_run}
use porfirium.Runner.Attempts.{schedule, record_container, fail_start}
use porfirium.Runner.Cancellation.{Cancelling, cancel_begin, cancel_finish, any_run}
use porfirium.Runner.Suspension.{
  SuspensionCommitted, suspend_begin, begin_suspension, suspend_finish,
}
use porfirium.Runner.Loss.{Candidate, handle_attempt_loss, retry_allowed}
use porfirium.Runner.Completion.{
  RunEvent, EventBody, result_proposed, messages_committed, checkpoint_committed, message_started,
  malformed, unsupported, Proposal, consume_run_event, apply_event, propose, insert_proposal,
  confirm_messages, confirm_checkpoint, converge, apply_confirmations, finish, complete,
}
use porfirium.Runner.Effects.{
  admit-runs, schedule-cases, begin-rows, mark_running-runs, cancel_begin-cases, cancel_finish-runs,
  suspend_begin-runs,
}
use porfirium.Runner.Converging.{
  propose-cases, confirm_messages-SameRuns, confirm_checkpoint-SameRuns,
  apply_confirmations-SameRuns, finish-cases, start_message-runs, consume_run_event-cases,
}
use porfirium.Runner.Steps.{
  Config, Step, admitted, scheduled, recorded, marked, start_failed, cancel_begun, cancel_finished,
  suspend_begun, suspend_finished, attempt_lost, consumed, Steps, here, next,
}

-- A terminal run has no active attempt.
abbrev pub IsIdle : Run → Type 0
IsIdle r = is_terminal r.state ≡ true → r.active_attempt_id ≡ none

abbrev pub Ended : Run → Type 0
Ended r = (is_terminal r.state ≡ true) × (r.active_attempt_id ≡ none)

-- What each transaction does to the table of runs: the ended rows stay, and all stay idle.
abbrev pub Keeps : Table Run → Table Run → Type 0
Keeps old new = Frozen Ended old new × (Holds IsIdle old → Holds IsIdle new)

Keeps-refl : (t : Table Run) → Keeps t t
Keeps-refl t = (λ k v e q. e, λ h. h)

pub Keeps-trans : (t u v : Table Run) → Keeps t u → Keeps u v → Keeps t v
Keeps-trans t u v a b = (λ k r e q. b.0 k r (a.0 k r e q) q, λ h. b.1 (a.1 h))

Keeps-update_where :
    (run : Uuid) (p : Run → Bool) (f : Run → Run) (t : Table Run)
    → ((r : Run) → Ended r → p r ≡ false)
    → ((r : Run) → IsIdle r → p r ≡ true → IsIdle (f r))
    → Keeps t (update_where run p f t)
Keeps-update_where run p f t guard idle =
    (Frozen-update_where Ended run p f t guard, Holds-update_where IsIdle run p f t idle)

Keeps-put :
    (run : Uuid) (r : Run) (t : Table Run)
    → ((w : Run) → lookup run t ≡ some w → ¬ Ended w)
    → IsIdle r
    → Keeps t (put run r t)
Keeps-put run r t free idle = (Frozen-put Ended run r t free, Holds-put IsIdle run r t idle)

not-Ended_schedulable : (r : Run) → is_schedulable r.state ≡ true → ¬ Ended r
not-Ended_schedulable r h q = ground arith

admit-Keeps :
    (g : Config) (a : RunAdmission) (key : Key) (spec : SignedSpecification) (event_id : Uuid)
    (now : Time) (d d' : Db) {r : Run}
    → admit g.digest g.payload_digest g.attempt_timeout_seconds a key spec event_id now d
      ≡ ok (r, d')
    → Keeps d.runs d'.runs
unfolding admitted_run
admit-Keeps g a key spec event_id now d d' e =
    elim (admit-runs g.digest g.payload_digest g.attempt_timeout_seconds a key spec event_id now d
      d' e) [
        | inl same ↦ rw same (Keeps-refl d.runs)
        | inr (deadline, unused, new) ↦
            rw new
              (Keeps-put a.run_id (admitted_run a spec deadline now) d.runs (λ w h. cc) (λ h. cc))
      ]

schedule-Keeps :
    (g : Config) (run attempt_id : Uuid) (now : Time) (d d' : Db) {x : Option Uuid}
    → schedule g.limits run attempt_id now d ≡ ok (x, d')
    → Keeps d.runs d'.runs
schedule-Keeps g run attempt_id now d d' e =
    elim (schedule-cases g.limits run attempt_id now d d' e) [
      | inl (_, same) ↦ rw same (Keeps-refl d.runs)
      | inr (row, found, open_state, _, _, begun) ↦
          let (_, _, _, new) = begin-rows run attempt_id _ row now d d' begun in
          rw new (Keeps-put run _ d.runs (λ w h q. ground arith) (λ h. cc))
    ]

cancel_begin-Keeps :
    (run : Uuid) (now : Time) (d d' : Db) {x : Cancelling}
    → cancel_begin run now d ≡ ok (x, d')
    → Keeps d.runs d'.runs
cancel_begin-Keeps run now d d' e = elim (cancel_begin-cases run now d d' e) [
  | inl same ↦ rw same (Keeps-refl d.runs)
  | inr (row, found, alive, new) ↦ rw new (
    λ k v e q. grind (arith, lookup-update_where),
    Holds-update_where IsIdle run any_run _ d.runs (λ r h p q. cc),
  )
]

cancel_finish-Keeps :
    (run : Uuid) (row : Run) (attempt : Option (Uuid × Attempt)) (i event_id cause : Uuid)
    (now : Time) (d d' : Db) {r : Run}
    → cancel_finish run row attempt i event_id cause now d ≡ ok (r, d')
    → Keeps d.runs d'.runs
unfolding cancel_finish get_run
cancel_finish-Keeps run row attempt i event_id cause now d d' e =
    rw (cancel_finish-runs run row attempt i event_id cause now d d' e)
      (Keeps-update_where run _ _ d.runs (λ r q. ground arith) (λ r h p q. refl))

suspend_begin-Keeps :
    (e : SuspensionCommitted) (now : Time) (d d' : Db) {x : Option Run}
    → suspend_begin e now d ≡ ok (x, d')
    → Keeps d.runs d'.runs
unfolding begin_suspension
suspend_begin-Keeps e now d d' h = elim (suspend_begin-runs e now d d' h) [
  | inl same ↦ rw same (Keeps-refl d.runs)
  | inr new ↦ rw new (Keeps-update_where e.run_id _ _ d.runs (λ r q. ground arith) (λ r h p q. cc))
]

handle_attempt_loss-Keeps :
    (n : ℕ) (c : Candidate) (event_id : Uuid) (now : Time) (d : Db)
    → Keeps d.runs (handle_attempt_loss n c event_id now d).runs
unfolding handle_attempt_loss
handle_attempt_loss-Keeps n c event_id now d =
    elim (Bool-cases (
      not c.attempt.visible_output
      && retry_allowed c.attempt.attempt_number c.run.deadline_at n now)) [
        | inl again ↦
            rw again (Keeps-update_where c.run_id _ _ d.runs (λ r q. ground arith) (λ r h p q. cc))
        | inr over ↦
            rw over (Keeps-update_where c.run_id _ _ d.runs (λ r q. ground arith) (λ r h p q. refl))
      ]

pub insert_proposal-Keeps :
    (run : Uuid) (r : Run) (event_id : Uuid) (p : Proposal) (now : Time) (d : Db)
    → Keeps d.runs (insert_proposal run r event_id p now d).runs
unfolding insert_proposal
insert_proposal-Keeps run r event_id p now d =
    Keeps-update_where run _ _ d.runs (λ r q. ground arith) (λ r h p q. cc)

pub complete-Keeps :
    (run : Uuid) (r : Run) (c : Completion) (event_id : Uuid) (now : Time) (d : Db)
    → Keeps d.runs (complete run r c event_id now d).runs
unfolding complete
complete-Keeps run r c event_id now d = elim (Bool-cases (is_reconciling r.state)) [
  | inl done ↦ rw done (Keeps-update_where run _ _ d.runs (λ r q. ground arith) (λ r h p q. refl))
  | inr other ↦ rw other (Keeps-update_where run _ _ d.runs (λ r q. ground arith) (λ r h p q. refl))
]

pub converge-Keeps :
    (run event_id : Uuid) (now : Time) (d d' : Db)
    → converge run event_id now d ≡ ok d'
    → Keeps d.runs d'.runs
unfolding converge
converge-Keeps run event_id now d d' e =
    let (m, applied, finished) = succeeds-split (apply_confirmations run d) _ e in
    let (same, _, _) = apply_confirmations-SameRuns run d m applied in
    let eq : d' ≡ finish run event_id now m = cc in
    elim (finish-cases run event_id now m) [
      | inl still ↦ rw (eq, still, same) (Keeps-refl d.runs)
      | inr (r, c, _, _, _, _, new) ↦ rw (eq, new, ← same) (complete-Keeps run r c event_id now m)
    ]

apply_event-Keeps :
    (e : RunEvent) (r : Run) (new_id : Uuid) (now : Time) (d d' : Db)
    → apply_event e r new_id now d ≡ ok d'
    → Keeps d.runs d'.runs
unfolding apply_event
apply_event-Keeps e r new_id now d d' h = go e.body h
  where
    after :
        (m : Db)
        → Keeps d.runs m.runs
        → converge e.run_id new_id now m ≡ ok d'
        → Keeps d.runs d'.runs
    after m k c = Keeps-trans d.runs m.runs d'.runs k (converge-Keeps e.run_id new_id now m d' c)

    go :
        (b : EventBody)
        → apply_event (record e { body = b }) r new_id now d ≡ ok d'
        → Keeps d.runs d'.runs
    go (result_proposed p) h =
        let (m, proposed, c) = succeeds-split (propose e.run_id r e.id p now d) _ h in
        let (_, effect) = propose-cases e.run_id r e.id p now d m proposed in
        elim effect [
          | inl same ↦ after m (rw same (Keeps-refl d.runs)) c
          | inr (_, new) ↦ after m (rw new (insert_proposal-Keeps e.run_id r e.id p now d)) c
        ]
    go (messages_committed payload) h =
        let (m, confirmed, c) = succeeds-split (confirm_messages e.run_id payload d) _ h in
        after m
          (rw (confirm_messages-SameRuns e.run_id payload d m confirmed).0 (Keeps-refl d.runs)) c
    go (checkpoint_committed payload) h =
        let (m, confirmed, c) = succeeds-split (confirm_checkpoint e.run_id payload d) _ h in
        after m
          (rw (confirm_checkpoint-SameRuns e.run_id payload d m confirmed).0 (Keeps-refl d.runs)) c
    go (message_started attempt epoch message) h =
        rw (start_message-runs r attempt epoch message d d' h).0 (Keeps-refl d.runs)
    go malformed h = cc
    go unsupported h = cc

consume_run_event-Keeps :
    (e : RunEvent) (new_id : Uuid) (now : Time) (d d' : Db) {x : Bool}
    → consume_run_event e new_id now d ≡ ok (x, d')
    → Keeps d.runs d'.runs
consume_run_event-Keeps e new_id now d d' h = elim (consume_run_event-cases e new_id now d d' h) [
  | inl (_, same) ↦ rw same (Keeps-refl d.runs)
  | inr (r, _, _, _, _, applied) ↦
      apply_event-Keeps e r new_id now (record d { inbox = e.id ∷ d.inbox }) d' applied
]

module _ (g : Config) where
  pub Step-Keeps : {d d' : Db} → Step g d d' → Keeps d.runs d'.runs
  unfolding record_container fail_start suspend_finish
  Step-Keeps {d} {d'} (admitted a key spec event_id now r e) =
      admit-Keeps g a key spec event_id now d d' e
  Step-Keeps {d} {d'} (scheduled run attempt_id now x e) =
      schedule-Keeps g run attempt_id now d d' e
  Step-Keeps {d} {d'} (recorded attempt container e) = rw e (Keeps-refl d.runs)
  Step-Keeps {d} {d'} (marked run attempt now e) =
      rw (mark_running-runs run attempt now d d' e)
        (Keeps-update_where run _ _ d.runs (λ r q. ground arith) (λ r h p q. cc))
  Step-Keeps {d} {d'} (start_failed run attempt now e) =
      rw e (Keeps-update_where run _ _ d.runs (λ r q. ground arith) (λ r h p q. refl))
  Step-Keeps {d} {d'} (cancel_begun run now x e) = cancel_begin-Keeps run now d d' e
  Step-Keeps {d} {d'} (cancel_finished run row attempt i event_id cause now r e) =
      cancel_finish-Keeps run row attempt i event_id cause now d d' e
  Step-Keeps {d} {d'} (suspend_begun e now x h) = suspend_begin-Keeps e now d d' h
  Step-Keeps {d} {d'} (suspend_finished e now h) =
      rw h (Keeps-update_where e.run_id _ _ d.runs (λ r q. ground arith) (λ r h p q. cc))
  Step-Keeps {d} {d'} (attempt_lost c event_id now _ e) =
      rw e (handle_attempt_loss-Keeps g.max_attempts c event_id now d)
  Step-Keeps {d} {d'} (consumed e new_id now x h) = consume_run_event-Keeps e new_id now d d' h

  Steps-Keeps : {d d' : Db} → Steps g d d' → Keeps d.runs d'.runs
  Steps-Keeps {d} here = Keeps-refl d.runs
  Steps-Keeps {d} {d'} (next {e = m} ss st) =
      Keeps-trans d.runs m.runs d'.runs (Steps-Keeps ss) (Step-Keeps st)

  -- From a database where no ended run has an active attempt, whatever transactions follow: a run
  -- that has completed, failed or been cancelled keeps its row, unchanged in every column.
  pub terminal_is_final :
      (run : Uuid) (r : Run) {d d' : Db}
      → Holds IsIdle d.runs
      → Steps g d d'
      → lookup run d.runs ≡ some r
      → is_terminal r.state ≡ true
      → lookup run d'.runs ≡ some r
  terminal_is_final run r idle ss found over =
      (Steps-Keeps ss).0 run r found (over, idle run r found over)

  -- No transaction leaves an ended run with an active attempt.
  pub Steps-IsIdle : {d d' : Db} → Holds IsIdle d.runs → Steps g d d' → Holds IsIdle d'.runs
  Steps-IsIdle idle ss = (Steps-Keeps ss).1 idle
