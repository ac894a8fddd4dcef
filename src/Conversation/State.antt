-- ===== src/Conversation/State.antt =====
-- The tables of services/conversation-service/migrations/*.sql and the rows of
-- services/conversation-service/conversation_service/domain.py, with the helpers of store.py. A text
-- is the list of its UTF-8 bytes, a JSON value its canonical text.
use porfirium.Prelude.{
  ℕ, ◌+◌, Bool, true, false, ◌&&◌, not, Option, List, [], ◌∷◌, Uuid, Digest, Key, Time, ◌==◌, elem,
  find, if◌then◌else◌, Table, lookup, update_where, Result, ok, ◌>>=◌, ◌>>◌, raise_if, or_raise,
}

abbrev pub Text : Type 0
Text = List ℕ

abbrev pub Json : Type 0
Json = Text

-- `DEFAULT '{}'`
abbrev pub empty_object : Json
empty_object = 123 ∷ 125 ∷ []

pub data Problem : Type 0 where
  conversation_not_found idempotency_conflict message_exists event_invalid event_unsupported
        suspension_conflict delta_invalid delta_conflict completion_invalid completion_incomplete
        completion_mismatch message_not_started message_terminal input_request_not_found
        input_already_answered :
      Problem
  -- A constraint of the database, or an exception that no handler expects.
  integrity_violation uncaught : Problem

pub data Role : Type 0 where
  user assistant : Role

pub data MessageStatus : Type 0 where
  streaming completed interrupted failed : MessageStatus

pub data InputState : Type 0 where
  reserved pending answered expired cancelled : InputState

-- A row of `conversations` behind its `conversation_id`.
pub record Conversation : Type 0 where
  pub owner_id : Uuid
  pub thread_id : Uuid
  pub release_id : Uuid
  pub configuration_revision_id : Option Uuid
  pub delegation_grant_id : Option Uuid
  pub title : Text
  pub last_sequence : ℕ
  pub created_at : Time
  pub updated_at : Time

-- A row of `messages` behind its `message_id`.
pub record Message : Type 0 where
  pub conversation_id : Uuid
  pub run_id : Uuid
  pub role : Role
  pub status : MessageStatus
  pub content : Text
  pub finish_reason : Option Text
  pub usage : Json
  pub created_at : Time
  pub completed_at : Option Time

pub record Chunk : Type 0 where
  pub message_id : Uuid
  pub chunk_sequence : ℕ
  pub content : Text

-- A row of `input_requests` behind its `input_request_id`.
pub record InputRequest : Type 0 where
  pub conversation_id : Uuid
  pub run_id : Uuid
  pub suspension_id : Uuid
  pub checkpoint_id : Uuid
  pub prompt : Text
  pub schema : Json
  pub delegation_grant_id : Option Uuid
  pub state : InputState
  pub response : Option Json
  pub response_run_id : Option Uuid
  pub created_at : Time
  pub answered_at : Option Time

-- The data of a completed message.
pub record CompletionData : Type 0 where
  pub content : Text
  pub content_bytes : ℕ
  pub chunk_count : ℕ
  pub content_sha256 : Digest

-- The data by the event's type, identities parsed. A message's id may be missing.
pub data EventBody : Type 0 where
  -- the final messages, and whether `messages` is among the required confirmations
  result_proposed : List Uuid → Bool → EventBody
  -- suspension, checkpoint, input request
  suspension_committed : Uuid → Uuid → Uuid → EventBody
  message_started : Option Uuid → EventBody
  message_delta : Option Uuid → ℕ → Text → EventBody
  -- `none`: the metadata is missing or no number. Then the finish reason and the usage.
  message_completed : Option Uuid → Option CompletionData → Text → Json → EventBody
  message_interrupted message_failed : Option Uuid → EventBody
  -- suspension, checkpoint, prompt, schema
  request_proposed : Uuid → Uuid → Text → Json → EventBody
  unsupported : EventBody

-- What a presentation event shows.
pub data Presentation : Type 0 where
  user_message : Uuid → Message → Presentation
  runtime : EventBody → Presentation
  request_created : Uuid → InputRequest → Presentation
  response_accepted : Uuid → Presentation

pub record PresentationEvent : Type 0 where
  pub conversation_id : Uuid
  pub sequence : ℕ
  pub shown : Presentation
  pub created_at : Time

pub data Operation : Type 0 where
  creation : Operation
  message_of : Uuid → Operation
  input_of : Uuid → Operation

-- A row of `request_idempotency`.
pub record Request : Type 0 where
  pub owner_id : Uuid
  pub operation : Operation
  pub idempotency_key : Key
  pub request_sha256 : Digest
  pub resource_id : Uuid
  pub conversation_sequence : Option ℕ

-- A row of `result_proposals` behind its `run_id`.
pub record ResultProposal : Type 0 where
  pub event_id : Uuid
  pub conversation_id : Uuid
  pub final_message_ids : List Uuid
  pub traceparent : Text
  pub correlation_id : Uuid
  pub causation_id : Uuid
  pub confirmation_event_id : Option Uuid

-- A row of `suspension_commitments` behind its `suspension_id`.
pub record Commitment : Type 0 where
  pub event_id : Uuid
  pub run_id : Uuid
  pub checkpoint_id : Uuid
  pub input_request_id : Uuid

pub record RunRequested : Type 0 where
  pub user_id : Uuid
  pub conversation_id : Uuid
  pub thread_id : Uuid
  pub release_id : Uuid
  pub run_id : Uuid
  -- `user` for a message, `assistant` for a response; the value is the content or the response
  pub trigger_role : Role
  pub trigger_id : Uuid
  pub value : Text
  pub delegation_grant_id : Option Uuid
  pub configuration_revision_id : Option Uuid
  pub starting_checkpoint_id : Option Uuid

pub record MessagesCommitted : Type 0 where
  pub user_id : Uuid
  pub conversation_id : Uuid
  pub thread_id : Uuid
  pub run_id : Uuid
  pub correlation_id : Uuid
  pub causation_id : Uuid
  pub message_ids : List Uuid
  pub conversation_sequence : ℕ

pub data Event : Type 0 where
  run_requested : RunRequested → Event
  messages_committed : MessagesCommitted → Event

-- The newest presentation event stands first.
pub record Db : Type 0 where
  pub conversations : Table Conversation
  pub messages : Table Message
  pub chunks : List Chunk
  pub inputs : Table InputRequest
  pub presented : List PresentationEvent
  pub requests : List Request
  pub inbox : List Uuid
  pub outbox : List (Uuid × Event)
  pub proposals : Table ResultProposal
  pub commitments : Table Commitment

abbrev pub same_operation : Operation → Operation → Bool
same_operation creation creation = true
same_operation (message_of a) (message_of b) = a == b
same_operation (input_of a) (input_of b) = a == b
same_operation _ _ = false

abbrev pub is_streaming : MessageStatus → Bool
is_streaming streaming = true
is_streaming _ = false

abbrev pub is_complete : MessageStatus → Bool
is_complete completed = true
is_complete _ = false

abbrev pub is_reserved : InputState → Bool
is_reserved reserved = true
is_reserved _ = false

abbrev pub is_pending : InputState → Bool
is_pending pending = true
is_pending _ = false

-- `_owned`
unfoldable pub owned : Uuid → Uuid → Db → Result Problem Conversation
owned owner id d = do
  c ← or_raise (lookup id d.conversations) conversation_not_found
  raise_if (not (c.owner_id == owner)) conversation_not_found
  ok c

unfoldable pub find_request : Uuid → Operation → Key → List Request → Option Request
find_request owner op key =
    find λ r. r.owner_id == owner && same_operation r.operation op && r.idempotency_key == key

-- The sequence numbers of a conversation's events, newest first.
unfoldable pub sequences : Uuid → List PresentationEvent → List ℕ
sequences id [] = []
sequences id (p ∷ ps) =
    let rest = sequences id ps in if p.conversation_id == id then p.sequence ∷ rest else rest

abbrev pub any_conversation : Conversation → Bool
any_conversation c = true

-- `_present`, under `PRIMARY KEY(conversation_id, sequence)`
unfoldable pub present : Uuid → Presentation → Time → Db → Result Problem (ℕ × Db)
present id shown now d = do
  c ← or_raise (lookup id d.conversations) integrity_violation
  raise_if (elem (c.last_sequence + 1) (sequences id d.presented)) integrity_violation
  ok (
    c.last_sequence + 1,
    record d {
      conversations =
          update_where id any_conversation
            (λ c. record c { last_sequence = c.last_sequence + 1; updated_at = now })
            d.conversations;
      presented =
          record {
            conversation_id = id;
            sequence = c.last_sequence + 1;
            shown = shown;
            created_at = now;
          }
          ∷ d.presented;
    },
  )
