-- ===== src/Runner/Steps.antt =====
-- The interleavings of the Runner (services/agent-runner/agent_runner): every transaction that the
-- HTTP handlers, the scheduler and the consumers may run, in any order, with any arguments.
use porfirium.Prelude.{ℕ, ◌≡◌, Bool, Option, Uuid, Digest, Key, Time, ok, lookup, some}
use porfirium.Runner.State.{RunAdmission, SignedSpecification, ExpiresAt, Run, Attempt, Db}
use porfirium.Runner.Admission.{admit}
use porfirium.Runner.Attempts.{CapacityLimits, schedule, record_container, mark_running, fail_start}
use porfirium.Runner.Cancellation.{Cancelling, cancel_begin, cancel_finish}
use porfirium.Runner.Suspension.{SuspensionCommitted, suspend_begin, suspend_finish}
use porfirium.Runner.Loss.{Candidate, handle_attempt_loss}
use porfirium.Runner.Completion.{RunEvent, consume_run_event}

-- What is fixed while the service runs.
pub record Config : Type 0 where
  pub digest : RunAdmission → Digest
  pub payload_digest : ExpiresAt → ℕ → Digest
  pub attempt_timeout_seconds : ℕ
  pub max_attempts : ℕ
  pub limits : CapacityLimits

-- One committed transaction. The second transactions of `schedule`, `cancel`, `suspend` and of
-- `reconcile` may come at any time after the first, so they stand by themselves. The number of a
-- lost attempt was read from its row, where no transaction changes it.
pub data Step (g : Config) (d d' : Db) : Type 0 where
  admitted :
      (a : RunAdmission) (key : Key) (spec : SignedSpecification) (event_id : Uuid) (now : Time)
      (r : Run)
      → admit g.digest g.payload_digest g.attempt_timeout_seconds a key spec event_id now d
        ≡ ok (r, d')
      → Step g d d'
  scheduled :
      (run attempt_id : Uuid) (now : Time) (x : Option Uuid)
      → schedule g.limits run attempt_id now d ≡ ok (x, d')
      → Step g d d'
  recorded : (attempt container : Uuid) → d' ≡ record_container attempt container d → Step g d d'
  marked : (run attempt : Uuid) (now : Time) → mark_running run attempt now d ≡ ok d' → Step g d d'
  start_failed : (run attempt : Uuid) (now : Time) → d' ≡ fail_start run attempt now d → Step g d d'
  cancel_begun :
      (run : Uuid) (now : Time) (x : Cancelling) → cancel_begin run now d ≡ ok (x, d') → Step g d d'
  cancel_finished :
      (run : Uuid) (row : Run) (attempt : Option (Uuid × Attempt))
      (interrupted event_id cause : Uuid) (now : Time) (r : Run)
      → cancel_finish run row attempt interrupted event_id cause now d ≡ ok (r, d')
      → Step g d d'
  suspend_begun :
      (e : SuspensionCommitted) (now : Time) (x : Option Run)
      → suspend_begin e now d ≡ ok (x, d')
      → Step g d d'
  suspend_finished :
      (e : SuspensionCommitted) (now : Time) → d' ≡ suspend_finish e now d → Step g d d'
  attempt_lost :
      (c : Candidate) (event_id : Uuid) (now : Time)
      → ((a : Attempt)
          → lookup c.attempt_id d.attempts ≡ some a
          → a.attempt_number ≡ c.attempt.attempt_number)
      → d' ≡ handle_attempt_loss g.max_attempts c event_id now d
      → Step g d d'
  consumed :
      (e : RunEvent) (new_id : Uuid) (now : Time) (x : Bool)
      → consume_run_event e new_id now d ≡ ok (x, d')
      → Step g d d'

-- Any number of transactions.
pub data Steps (g : Config) (d : Db) : Db → Type 0 where
  here : Steps g d d
  next : {e f : Db} → Steps g d e → Step g e f → Steps g d f
