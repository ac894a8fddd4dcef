-- ===== src/Conversation/Requests.antt =====
-- The requests of a user: `create_conversation`, `create_message` and `answer_input` of
-- services/conversation-service/conversation_service/store.py. Each is one transaction; new ids are
-- arguments and fresh, as uuid4 makes them. `digest` is SHA-256 of the payload's canonical JSON.
use porfirium.Prelude.{
  ℕ, Bool, true, false, not, Option, none, some, [], ◌∷◌, Uuid, Digest, Key, Time, ◌==◌, is_some,
  if◌then◌else◌, Table, lookup, put, update_where, Result, ok, ◌>>=◌, ◌>>◌, raise_if, or_raise,
}
use porfirium.Conversation.State.{
  Text, Json, Problem, MessageStatus, InputState, Conversation, Message, InputRequest, Db,
  idempotency_conflict, message_exists, input_request_not_found, input_already_answered,
  integrity_violation, uncaught, user, assistant, user_message, response_accepted, creation,
  message_of, input_of, run_requested, is_pending, owned, empty_object, find_request, present,
  any_conversation,
}

pub record NewConversation : Type 0 where
  pub thread_id : Uuid
  pub release_id : Uuid
  pub configuration_revision_id : Option Uuid
  pub title : Text

pub record NewMessage : Type 0 where
  pub message_id : Uuid
  pub run_id : Uuid
  pub content : Text
  pub delegation_grant_id : Uuid

-- A run id and the response to an input request.
pub record Answer : Type 0 where
  pub run_id : Uuid
  pub response : Json

-- Whether `UNIQUE(thread_id)` forbids another conversation.
unfoldable pub thread_taken : Uuid → Table Conversation → Bool
thread_taken thread [] = false
thread_taken thread ((_, c) ∷ t) =
    let rest = thread_taken thread t in if c.thread_id == thread then true else rest

unfoldable pub new_conversation : Uuid → NewConversation → Time → Conversation
new_conversation owner p now = record {
  owner_id = owner;
  thread_id = p.thread_id;
  release_id = p.release_id;
  configuration_revision_id = p.configuration_revision_id;
  delegation_grant_id = none;
  title = p.title;
  last_sequence = 0;
  created_at = now;
  updated_at = now;
}

unfoldable pub create_conversation :
    (NewConversation → Digest)
    → Uuid
    → Key
    → NewConversation
    → Uuid
    → Time
    → Db
    → Result Problem ((Uuid × Conversation) × Db)
create_conversation digest owner key p id now d =
    elim (find_request owner creation key d.requests) [
      | some old ↦ do
        raise_if (not (old.request_sha256 == digest p)) idempotency_conflict
        c ← or_raise (lookup old.resource_id d.conversations) uncaught
        ok ((old.resource_id, c), d)
      | none ↦ do
        raise_if (thread_taken p.thread_id d.conversations) integrity_violation
        raise_if (is_some (lookup id d.conversations)) integrity_violation
        ok (
          (id, new_conversation owner p now),
          record d {
            conversations = put id (new_conversation owner p now) d.conversations;
            requests =
                record {
                  owner_id = owner;
                  operation = creation;
                  idempotency_key = key;
                  request_sha256 = digest p;
                  resource_id = id;
                  conversation_sequence = none;
                }
                ∷ d.requests;
          },
        )
    ]

unfoldable pub new_message : Uuid → NewMessage → Time → Message
new_message id p now = record {
  conversation_id = id;
  run_id = p.run_id;
  role = user;
  status = MessageStatus.completed;
  content = p.content;
  finish_reason = none;
  usage = empty_object;
  created_at = now;
  completed_at = some now;
}

-- The rows that `create_message` writes before it presents the message.
unfoldable pub store_message : Uuid → NewMessage → Time → Db → Db
store_message id p now d = record d {
  messages = put p.message_id (new_message id p now) d.messages;
  conversations =
      update_where id any_conversation
        (λ c. record c { delegation_grant_id = some p.delegation_grant_id }) d.conversations;
}

-- The rows that it writes after; `c` is the conversation as it was read.
unfoldable pub request_run :
    Digest → Uuid → Uuid → Key → Conversation → NewMessage → Uuid → ℕ → Db → Db
request_run sha owner id key c p event_id n d = record d {
  outbox =
      (
        event_id,
        run_requested (record {
          user_id = owner;
          conversation_id = id;
          thread_id = c.thread_id;
          release_id = c.release_id;
          run_id = p.run_id;
          trigger_role = user;
          trigger_id = p.message_id;
          value = p.content;
          delegation_grant_id = some p.delegation_grant_id;
          configuration_revision_id = c.configuration_revision_id;
          starting_checkpoint_id = none;
        }),
      )
      ∷ d.outbox;
  requests =
      record {
        owner_id = owner;
        operation = message_of id;
        idempotency_key = key;
        request_sha256 = sha;
        resource_id = p.message_id;
        conversation_sequence = some n;
      }
      ∷ d.requests;
}

unfoldable pub create_message :
    (NewMessage → Digest)
    → Uuid
    → Uuid
    → Key
    → NewMessage
    → Uuid
    → Time
    → Db
    → Result Problem (((Uuid × Message) × ℕ) × Db)
create_message digest owner id key p event_id now d = do
  c ← owned owner id d
  elim (find_request owner (message_of id) key d.requests) [
    | some old ↦ do
      raise_if (not (old.request_sha256 == digest p)) idempotency_conflict
      m ← or_raise (lookup old.resource_id d.messages) uncaught
      n ← or_raise old.conversation_sequence uncaught
      ok (((old.resource_id, m), n), d)
    | none ↦ do
      raise_if (is_some (lookup p.message_id d.messages)) message_exists
      r ←
          present id (user_message p.message_id (new_message id p now)) now
            (store_message id p now d)
      ok (
        ((p.message_id, new_message id p now), r.0),
        request_run (digest p) owner id key c p event_id r.0 r.1,
      )
  ]

-- The update of `answer_input`.
unfoldable pub accept_answer : Uuid → Answer → Time → Db → Db
accept_answer id a now d = record d {
  inputs =
      update_where id (λ _. true)
        (λ r. record r {
          state = InputState.answered;
          response = some a.response;
          response_run_id = some a.run_id;
          answered_at = some now;
        })
        d.inputs;
}

unfoldable pub request_resumed :
    Digest → Uuid → Uuid → Key → InputRequest → Conversation → Answer → Uuid → ℕ → Db → Db
request_resumed sha owner id key row c a event_id n d = record d {
  outbox =
      (
        event_id,
        run_requested (record {
          user_id = owner;
          conversation_id = row.conversation_id;
          thread_id = c.thread_id;
          release_id = c.release_id;
          run_id = a.run_id;
          trigger_role = assistant;
          trigger_id = id;
          value = a.response;
          delegation_grant_id = row.delegation_grant_id;
          configuration_revision_id = c.configuration_revision_id;
          starting_checkpoint_id = some row.checkpoint_id;
        }),
      )
      ∷ d.outbox;
  requests =
      record {
        owner_id = owner;
        operation = input_of id;
        idempotency_key = key;
        request_sha256 = sha;
        resource_id = id;
        conversation_sequence = some n;
      }
      ∷ d.requests;
}

-- The join of the request and its conversation, of this owner.
unfoldable pub owned_request : Uuid → Uuid → Db → Result Problem (InputRequest × Conversation)
owned_request owner id d = do
  row ← or_raise (lookup id d.inputs) input_request_not_found
  c ← or_raise (lookup row.conversation_id d.conversations) input_request_not_found
  raise_if (not (c.owner_id == owner)) input_request_not_found
  ok (row, c)

unfoldable pub answer_input :
    (Answer → Digest)
    → Uuid
    → Uuid
    → Key
    → Answer
    → Uuid
    → Time
    → Db
    → Result Problem ((Uuid × ℕ) × Db)
answer_input digest owner id key a event_id now d = do
  found ← owned_request owner id d
  elim (find_request owner (input_of id) key d.requests) [
    | some old ↦ do
      raise_if (not (old.request_sha256 == digest a)) idempotency_conflict
      n ← or_raise old.conversation_sequence uncaught
      ok ((id, n), d)
    | none ↦ do
      raise_if (not (is_pending found.0.state)) input_already_answered
      r ← present found.0.conversation_id (response_accepted id) now (accept_answer id a now d)
      ok ((id, r.0), request_resumed (digest a) owner id key found.0 found.1 a event_id r.0 r.1)
  ]
