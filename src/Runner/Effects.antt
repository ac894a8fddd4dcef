-- ===== src/Runner/Effects.antt =====
-- What a committed transaction of services/agent-runner/agent_runner/service.py has done, read off
-- its success: the cases, each with its guards and the new tables.
use porfirium.Prelude.{
  ℕ, ◌+◌, ◌≡◌, refl, ◌⊎◌, inl, inr, true, false, Option, none, some, Uuid, Digest, Key, Time,
  lookup, put, update_where, ok, Option-cases, Bool-cases, arith, is_some, ◌||◌, not,
}
use porfirium.Runner.State.{
  Run, Attempt, RunState, TerminalCode, Db, RunAdmission, SignedSpecification, ExpiresAt, not_text,
  unparsable, at, is_terminal, is_schedulable, get_run,
}
use porfirium.Runner.Admission.{admit, admit_new, admitted_run, find_admission, earlier}
use porfirium.Runner.Attempts.{
  CapacityLimits, schedule, begin, insert_attempt, new_attempt, max_number, mark_running,
  has_capacity, active_is,
}
use porfirium.Runner.Cancellation.{Cancelling, cancel_begin, cancel_finish, any_run, coalesce}
use porfirium.Runner.State.{is_cancelling}
use porfirium.Runner.Suspension.{SuspensionCommitted, suspend_begin, begin_suspension}

module _ (digest : RunAdmission → Digest) (payload_digest : ExpiresAt → ℕ → Digest)
    (timeout : ℕ) where
  -- An admission adds nothing, or one accepted run at an unused id.
  pub admit-runs :
      (a : RunAdmission) (key : Key) (spec : SignedSpecification) (event_id : Uuid) (now : Time)
      (d d' : Db) {r : Run}
      → admit digest payload_digest timeout a key spec event_id now d ≡ ok (r, d')
      → (d'.runs ≡ d.runs)
        ⊎ ((deadline : Time) × (lookup a.run_id d.runs ≡ none)
            × (d'.runs ≡ put a.run_id (admitted_run a spec deadline now) d.runs))
  unfolding admit admit_new get_run
  admit-runs a key spec event_id now d d' e =
      elim (Option-cases (find_admission key d.idempotency)) [
        | inr (r, found) ↦ inl (ground arith)
        | inl unused ↦ elim (ExpiresAt-cases spec.expires_at) [
          | inl (t, h) ↦ inr (earlier t (now + timeout), ground arith, ground arith)
          | inr h ↦ absurd (ground arith)
        ]
      ]
    where
      ExpiresAt-cases :
          (x : ExpiresAt) → ((t : Time) × (x ≡ at t)) ⊎ ((x ≡ not_text) ⊎ (x ≡ unparsable))
      ExpiresAt-cases (at t) = inl (t, refl)
      ExpiresAt-cases not_text = inr (inl refl)
      ExpiresAt-cases unparsable = inr (inr refl)

-- A schedule changes nothing, or starts an attempt of a schedulable run under the capacity limits.
pub schedule-cases :
    (l : CapacityLimits) (run attempt_id : Uuid) (now : Time) (d d' : Db) {x : Option Uuid}
    → schedule l run attempt_id now d ≡ ok (x, d')
    → ((x ≡ none) × (d' ≡ d))
      ⊎ ((row : Run) × (lookup run d.runs ≡ some row)
          × (is_schedulable row.state ≡ true)
          × (row.active_attempt_id ≡ none)
          × (has_capacity row.admission.user_id l d.runs ≡ true)
          × (begin run attempt_id
                (new_attempt run
                  (max_number run d.attempts + 1)
                  (row.lease_epoch + 1)
                  row.deadline_at)
                row
                now
                d
              ≡ ok (x, d')))
unfolding schedule
schedule-cases l run attempt_id now d d' e = elim (Option-cases (lookup run d.runs)) [
  | inl absent ↦ absurd (ground arith)
  | inr (row, found) ↦
      elim (Bool-cases (not (is_schedulable row.state) || is_some row.active_attempt_id)) [
        | inl skip ↦ inl (ground arith, ground arith)
        | inr go ↦ elim (Bool-cases (has_capacity row.admission.user_id l d.runs)) [
          | inl room ↦ inr (row, found, ground arith, ground arith, room, ground arith)
          | inr full ↦ inl (ground arith, ground arith)
        ]
      ]
]

-- The started attempt: its row, and the run that it is now active in.
pub begin-rows :
    (run attempt_id : Uuid) (a : Attempt) (row : Run) (now : Time) (d d' : Db) {x : Option Uuid}
    → begin run attempt_id a row now d ≡ ok (x, d')
    → (x ≡ some attempt_id)
      × (lookup attempt_id d.attempts ≡ none)
      × (d'.attempts ≡ put attempt_id a d.attempts)
      × (d'.runs
          ≡ put run
              (record row {
                state = RunState.starting;
                active_attempt_id = some attempt_id;
                lease_epoch = a.lease_epoch;
                updated_at = now;
              })
              d.runs)
unfolding begin insert_attempt
begin-rows run attempt_id a row now d d' e =
    (ground arith, ground arith, ground arith, ground arith)

pub mark_running-runs :
    (run attempt : Uuid) (now : Time) (d d' : Db)
    → mark_running run attempt now d ≡ ok d'
    → d'.runs
      ≡ update_where run
          (active_is attempt)
          (λ r. record r { state = RunState.running; updated_at = now })
          d.runs
unfolding mark_running
mark_running-runs run attempt now d d' e = ground arith

-- A cancellation begins for a run that has not ended.
pub cancel_begin-cases :
    (run : Uuid) (now : Time) (d d' : Db) {x : Cancelling}
    → cancel_begin run now d ≡ ok (x, d')
    → (d' ≡ d)
      ⊎ ((row : Run) × (lookup run d.runs ≡ some row)
          × (is_terminal row.state ≡ false)
          × (d'.runs
              ≡ update_where run any_run
                  (λ r. record r {
                    state = RunState.cancelling;
                    cancellation_requested_at = coalesce r.cancellation_requested_at now;
                    updated_at = now;
                  })
                  d.runs))
unfolding cancel_begin
cancel_begin-cases run now d d' e = elim (Option-cases (lookup run d.runs)) [
  | inl absent ↦ absurd (ground arith)
  | inr (row, found) ↦ elim (Bool-cases (is_terminal row.state)) [
    | inl over ↦ inl (ground arith)
    | inr alive ↦ inr (row, found, alive, ground arith)
  ]
]

pub cancel_finish-runs :
    (run : Uuid) (row : Run) (attempt : Option (Uuid × Attempt)) (i event_id cause : Uuid)
    (now : Time) (d d' : Db) {r : Run}
    → cancel_finish run row attempt i event_id cause now d ≡ ok (r, d')
    → d'.runs
      ≡ update_where run
          (λ r. is_cancelling r.state)
          (λ r. record r {
            state = RunState.cancelled;
            terminal_code = some TerminalCode.by_request;
            active_attempt_id = none;
            updated_at = now;
          })
          d.runs
unfolding cancel_finish get_run
cancel_finish-runs run row attempt i event_id cause now d d' e = ground arith

pub suspend_begin-runs :
    (e : SuspensionCommitted) (now : Time) (d d' : Db) {x : Option Run}
    → suspend_begin e now d ≡ ok (x, d')
    → (d' ≡ d) ⊎ (d' ≡ begin_suspension e now d)
unfolding suspend_begin
suspend_begin-runs e now d d' h = elim (Option-cases (lookup e.run_id d.runs)) [
  | inl absent ↦ absurd (ground arith)
  | inr (r, found) ↦ ground arith
]
