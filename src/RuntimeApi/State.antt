-- ===== src/RuntimeApi/State.antt =====
-- The frames of packages/contracts/protobuf/porfirium/runtime/v1/runtime.proto and the tables of
-- services/agent-runtime-api/migrations, as agent_runtime_api/runtime.py uses them. Texts and bytes are lists
-- of numbers.
use porfirium.Prelude.{
  ℕ, Bool, ◌&&◌, Option, List, Uuid, Digest, Time, ◌==◌, find, Table, Text, Json, Fields, list_eq,
}

-- The codes of the raised errors; `undecodable` and `malformed_uuid` are ValueErrors of Python.
pub data Error : Type 0 where
  unsupported_protocol identity_mismatch message_too_large result_proposal_invalid
        sequence_out_of_order stale_epoch attempt_mismatch invalid_frame idempotency_conflict
        invalid_utf8 chunk_size_invalid completion_hash_invalid model_gateway_unavailable
        model_forbidden model_request_invalid tool_forbidden tool_request_invalid
        tool_delegation_unavailable tool_idempotency_conflict tool_outcome_ambiguous
        tool_response_invalid undecodable malformed_uuid :
      Error
  -- What the gateways raise, where it is caught.
  model_gateway_failed model_gateway_response_invalid tool_gateway_failed : Error
  -- A constraint of the database.
  integrity_violation : Error
  -- Another exception of a gateway, which nothing catches.
  gateway_exception : Error

pub record FrameIdentity : Type 0 where
  pub protocol_version : Text
  pub run_id : Text
  pub attempt_id : Text
  pub lease_epoch : ℕ
  pub sequence : ℕ
  pub idempotency_key : Text
  pub traceparent : Text

pub record MessageCompleted : Type 0 where
  pub message_id : Text
  pub canonical_content_utf8 : Text
  pub chunk_count : ℕ
  pub content_bytes : ℕ
  pub content_sha256 : Text
  pub finish_reason : Text
  pub usage : Fields

pub record ResultProposed : Type 0 where
  pub final_message_ids : List Text
  pub final_checkpoint_id : Text

pub record ModelCall : Type 0 where
  pub request_id : Text
  pub model : Text
  pub prompt : Text
  pub max_output_tokens : ℕ

pub record ToolCall : Type 0 where
  pub invocation_id : Text
  pub tool : Text
  pub arguments : Fields

pub data Payload : Type 0 where
  hello : (run_capability : Text) → Payload
  heartbeat : Payload
  message_started : (message_id content_type : Text) → Payload
  message_delta : (message_id : Text) (chunk_sequence : ℕ) (content_utf8 : Text) → Payload
  message_completed : MessageCompleted → Payload
  message_interrupted : (message_id code : Text) → Payload
  input_request_proposed :
      (suspension_id checkpoint_id prompt : Text) (response_schema : Fields) → Payload
  suspension_committed : (suspension_id checkpoint_id input_request_id : Text) → Payload
  result_proposed : ResultProposed → Payload
  model_call : ModelCall → Payload
  tool_call : ToolCall → Payload

pub record AgentFrame : Type 0 where
  pub identity : FrameIdentity
  pub payload : Option Payload

-- What the methods use of a capability.
pub record RunCapability : Type 0 where
  pub user_id : Uuid
  pub conversation_id : Uuid
  pub thread_id : Uuid
  pub run_id : Uuid
  pub attempt_id : Uuid
  pub lease_epoch : ℕ
  pub deadline : ℕ
  pub models : List Text
  pub trace_id : Text
  pub tools : List Text

-- A row of `runtime_attempts` behind its `run_id`.
pub record Attempt : Type 0 where
  pub attempt_id : Uuid
  pub lease_epoch : ℕ
  pub user_id : Uuid
  pub conversation_id : Uuid
  pub thread_id : Uuid
  pub deadline : ℕ
  pub last_sequence : ℕ
  pub last_heartbeat_at : Option Time
  pub updated_at : Time

-- A row of `accepted_frames`.
pub record AcceptedFrame : Type 0 where
  pub run_id : Uuid
  pub attempt_id : Uuid
  pub lease_epoch : ℕ
  pub sequence : ℕ
  pub idempotency_key : Text
  pub payload : Payload
  pub durable_event_id : Option Uuid

-- The envelope of an event, without its constant fields.
pub record Envelope : Type 0 where
  pub event_type : Text
  pub event_id : Uuid
  pub user_id : Uuid
  pub conversation_id : Uuid
  pub thread_id : Uuid
  pub run_id : Uuid
  pub attempt_id : Uuid
  pub lease_epoch : ℕ
  pub correlation_id : Uuid
  pub causation_id : Uuid
  pub traceparent : Text
  pub time : Time
  pub aggregate_sequence : ℕ
  pub content : Fields

-- A row of `outbox_events` behind its `event_id`.
pub record OutboxEvent : Type 0 where
  pub subject : Text
  pub envelope : Envelope

pub data InvocationState : Type 0 where
  executing : InvocationState
  completed : (result : Json) (is_error : Bool) → InvocationState

-- A row of `tool_invocations`.
pub record Invocation : Type 0 where
  pub run_id : Uuid
  pub invocation_id : Uuid
  pub attempt_id : Uuid
  pub lease_epoch : ℕ
  pub request_sha256 : Digest
  pub state : InvocationState

pub record Db : Type 0 where
  pub attempts : Table Attempt
  pub frames : List AcceptedFrame
  pub outbox : Table OutboxEvent
  pub invocations : List Invocation

-- The rows of `accepted_frames` of an attempt under a lease.
abbrev pub same_attempt : Uuid → Uuid → ℕ → AcceptedFrame → Bool
same_attempt run attempt epoch f =
    f.run_id == run && f.attempt_id == attempt && f.lease_epoch == epoch

unfoldable pub find_frame : Uuid → Uuid → ℕ → Text → List AcceptedFrame → Option AcceptedFrame
find_frame run attempt epoch key =
    find λ f. same_attempt run attempt epoch f && list_eq f.idempotency_key key

-- `PRIMARY KEY (run_id, attempt_id, lease_epoch, sequence)`
unfoldable pub find_sequence : Uuid → Uuid → ℕ → ℕ → List AcceptedFrame → Option AcceptedFrame
find_sequence run attempt epoch sequence =
    find λ f. same_attempt run attempt epoch f && f.sequence == sequence

unfoldable pub find_invocation : Uuid → Uuid → List Invocation → Option Invocation
find_invocation run id = find λ i. i.run_id == run && i.invocation_id == id
