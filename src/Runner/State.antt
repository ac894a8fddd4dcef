-- ===== src/Runner/State.antt =====
-- The tables of services/agent-runner/migrations/*.sql that hold runs and attempts, and the rows
-- that services/agent-runner/agent_runner/{models,service,outbox}.py read and write.
use porfirium.Prelude.{
  ℕ, Bool, true, false, Option, List, Uuid, Digest, Key, Time, if◌then◌else◌, is_some, Table,
  lookup, put, Result, or_raise,
}

-- `run_state`
pub data RunState : Type 0 where
  requested accepted scheduled starting running suspending waiting_for_input : RunState
  completion_reconciling cancelling completed failed cancelled : RunState

-- `attempt_state`
pub data AttemptState : Type 0 where
  starting running stopping exited failed : AttemptState

pub data TerminalCode : Type 0 where
  attempt_start_failed by_request attempt_lost_after_output attempt_retry_exhausted : TerminalCode

pub data Error : Type 0 where
  idempotency_conflict run_conflict run_not_found : Error
  specification_invalid specification_expired : Error
  suspension_stale : Error
  event_invalid event_unsupported stale_epoch : Error
  confirmation_invalid proposal_conflict confirmation_mismatch : Error
  -- a value that does not parse, and a row that a constraint of the database refuses
  uncaught integrity_violation : Error

pub data TriggerType : Type 0 where
  user_message user_response resume : TriggerType

pub record Trigger : Type 0 where
  pub trigger_type : TriggerType
  pub id : Uuid

-- The value is passed on and never read.
pub record RunInput : Type 0 where
  pub trigger_type : TriggerType
  pub trigger_id : Uuid
  pub value : ℕ

-- `trace_id` is the number that its 32 hexadecimal digits stand for.
pub record RunAdmission : Type 0 where
  pub run_id : Uuid
  pub user_id : Uuid
  pub conversation_id : Uuid
  pub thread_id : Uuid
  pub release_id : Uuid
  pub delegation_grant_id : Uuid
  pub configuration_revision_id : Option Uuid
  pub starting_checkpoint_id : Option Uuid
  pub trigger : Trigger
  pub run_input : Option RunInput
  pub trace_id : Uuid

-- The field `expires_at` of a payload: absent or no text, a text that is no time, a time.
pub data ExpiresAt : Type 0 where
  not_text unparsable : ExpiresAt
  at : Time → ExpiresAt

pub record SignedSpecification : Type 0 where
  pub specification_id : Uuid
  pub run_id : Uuid
  pub expires_at : ExpiresAt
  -- the rest of the payload
  pub content : ℕ
  pub payload_sha256 : Digest

-- A row of `runs` behind its `run_id`.
pub record Run : Type 0 where
  pub admission : RunAdmission
  pub specification : SignedSpecification
  pub state : RunState
  pub active_attempt_id : Option Uuid
  pub lease_epoch : ℕ
  pub terminal_code : Option TerminalCode
  pub cancellation_requested_at : Option Time
  pub deadline_at : Time
  pub created_at : Time
  pub updated_at : Time

-- A row of `attempts` behind its `attempt_id`. The container's name is made of the run's id and the
-- number, the network's of the attempt's id.
pub record Attempt : Type 0 where
  pub run_id : Uuid
  pub attempt_number : ℕ
  pub lease_epoch : ℕ
  pub state : AttemptState
  pub container_id : Option Uuid
  pub deadline_at : Time
  pub started_at : Option Time
  pub ended_at : Option Time
  pub visible_output : Bool
  pub active_message_id : Option Uuid

pub data Confirmation : Type 0 where
  messages checkpoint : Confirmation
  other : ℕ → Confirmation

-- A row of `run_completion` behind its `run_id`.
pub record Completion : Type 0 where
  pub proposal_event_id : Uuid
  pub attempt_id : Uuid
  pub lease_epoch : ℕ
  pub final_message_ids : List Uuid
  pub final_checkpoint_id : Option Uuid
  pub required_confirmations : List Confirmation
  pub messages_confirmed : Bool
  pub checkpoint_confirmed : Bool
  pub reconciled_at : Option Time

-- The identifying fields of `_event_metadata`.
pub record Metadata : Type 0 where
  pub user_id : Uuid
  pub conversation_id : Uuid
  pub thread_id : Uuid
  pub run_id : Uuid
  pub correlation_id : Uuid
  pub causation_id : Uuid
  pub time : Time

-- The events of the outbox.
pub data Event : Type 0 where
  schedule_command : Uuid → Event
  -- attempt, epoch, message, whether by cancellation or by loss
  message_interrupted : Metadata → Uuid → ℕ → Uuid → Bool → Event
  -- attempt, epoch
  run_cancelled : Metadata → Option Uuid → ℕ → Event
  run_completed : Metadata → Uuid → ℕ → Event

pub record AdmitReplay : Type 0 where
  pub idempotency_key : Key
  pub request_sha256 : Digest
  pub run_id : Uuid

pub record Db : Type 0 where
  pub runs : Table Run
  pub attempts : Table Attempt
  pub idempotency : List AdmitReplay
  pub inbox : List Uuid
  pub completions : Table Completion
  -- `run_confirmations` of the two kinds: the ids that the stored payload reads as, `none` where
  -- reading them raises
  pub message_confirmations : Table (Option (List Uuid))
  pub checkpoint_confirmations : Table (Option Uuid)
  pub outbox : Table Event

-- `TERMINAL_STATES` of completion.py, and the same three states in `cancel`
abbrev pub is_terminal : RunState → Bool
is_terminal completed = true
is_terminal RunState.failed = true
is_terminal cancelled = true
is_terminal _ = false

-- The states that `has_capacity` counts.
abbrev pub is_active : RunState → Bool
is_active RunState.starting = true
is_active RunState.running = true
is_active suspending = true
is_active cancelling = true
is_active _ = false

abbrev pub is_schedulable : RunState → Bool
is_schedulable accepted = true
is_schedulable scheduled = true
is_schedulable _ = false

abbrev pub is_running : RunState → Bool
is_running RunState.running = true
is_running _ = false

abbrev pub is_suspending : RunState → Bool
is_suspending suspending = true
is_suspending _ = false

abbrev pub is_waiting : RunState → Bool
is_waiting waiting_for_input = true
is_waiting _ = false

abbrev pub is_cancelling : RunState → Bool
is_cancelling cancelling = true
is_cancelling _ = false

abbrev pub is_reconciling : RunState → Bool
is_reconciling completion_reconciling = true
is_reconciling _ = false

abbrev pub is_completed : RunState → Bool
is_completed completed = true
is_completed _ = false

-- `attempts_one_active_per_run_idx` covers these states.
abbrev pub is_live : AttemptState → Bool
is_live AttemptState.starting = true
is_live AttemptState.running = true
is_live AttemptState.stopping = true
is_live _ = false

-- `INSERT … ON CONFLICT (event_id) DO NOTHING`
unfoldable pub enqueue : Uuid → Event → Table Event → Table Event
enqueue event_id e t = if is_some (lookup event_id t) then t else put event_id e t

-- `cause` is the causing identity: `UUID(cause)`, or uuid5 of a cause that is no UUID.
unfoldable pub event_metadata : Uuid → Run → Uuid → Time → Metadata
event_metadata run r cause now = record {
  user_id = r.admission.user_id;
  conversation_id = r.admission.conversation_id;
  thread_id = r.admission.thread_id;
  run_id = run;
  correlation_id = r.admission.trace_id;
  causation_id = cause;
  time = now;
}

unfoldable pub get_run : Uuid → Db → Result Error Run
get_run run d = or_raise (lookup run d.runs) run_not_found
