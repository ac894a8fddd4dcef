-- ===== src/Conversation/Endings.antt =====
-- What is settled once (services/conversation-service/conversation_service/store.py): an ended
-- message, the confirmation of a run's messages, an event that was projected, a repeated request.
use porfirium.Prelude.{
  ℕ, ◌≡◌, ◌⊎◌, inl, inr, true, Option, none, some, ◌∷◌, Uuid, Digest, Key, Time, elem, lookup,
  lookup-put, lookup-update_where, Frozen, ok, Result-cases, Option-cases, Bool-cases, arith,
}
use porfirium.Conversation.State.{
  Conversation, Message, Text, Db, find_request, message_of, present, owned,
}
use porfirium.Conversation.Requests.{
  NewConversation, NewMessage, Answer, create_conversation, create_message, answer_input,
  store_message, request_run, request_resumed, accept_answer,
}
use porfirium.Conversation.Events.{RuntimeEvent, handle, project}
use porfirium.Conversation.Steps.{
  Config, Step, Steps, here, next, created, messaged, answered, projected,
}
use porfirium.Conversation.Effects.{IsOver, IsConfirmedOnce, confirmations, handle-Mild}

-- What every transaction keeps: the ended messages, and the account of confirmations.
abbrev Settles : Db → Db → Type 0
Settles d d' = Frozen IsOver d.messages d'.messages × (IsConfirmedOnce d → IsConfirmedOnce d')

create_conversation-Settles :
    (digest : NewConversation → Digest) (owner : Uuid) (key : Key) (p : NewConversation) (id : Uuid)
    (now : Time) (d d' : Db) {r : Uuid × Conversation}
    → create_conversation digest owner key p id now d ≡ ok (r, d')
    → Settles d d'
unfolding create_conversation
create_conversation-Settles digest owner key p id now d d' e =
    (λ k v f q. ground arith, λ h run. ground (arith, h run))

create_message-Settles :
    (digest : NewMessage → Digest) (owner id : Uuid) (key : Key) (p : NewMessage) (event_id : Uuid)
    (now : Time) (d d' : Db) {r : (Uuid × Message) × ℕ}
    → create_message digest owner id key p event_id now d ≡ ok (r, d')
    → Settles d d'
unfolding create_message store_message request_run present confirmations
create_message-Settles digest owner id key p event_id now d d' e =
    (λ k v f q. grind (arith, lookup-put), λ h run. ground (arith, h run))

answer_input-Settles :
    (digest : Answer → Digest) (owner id : Uuid) (key : Key) (a : Answer) (event_id : Uuid)
    (now : Time) (d d' : Db) {r : Uuid × ℕ}
    → answer_input digest owner id key a event_id now d ≡ ok (r, d')
    → Settles d d'
unfolding answer_input accept_answer request_resumed present confirmations
answer_input-Settles digest owner id key a event_id now d d' e =
    (λ k v f q. ground arith, λ h run. ground (arith, h run))

-- A projected event was seen before, or it was handled and is now in the inbox.
project-cases :
    (request_id : Uuid → Uuid) (sha256 : Text → Digest) (e : RuntimeEvent) (event_id : Uuid)
    (now : Time) (d d' : Db) {n : Option ℕ}
    → project request_id sha256 e event_id now d ≡ ok (n, d')
    → ((d' ≡ d) × (elem e.id d.inbox ≡ true))
      ⊎ ((m : Db) × (handle request_id sha256 e event_id now d ≡ ok (n, m))
          × (d' ≡ record m { inbox = e.id ∷ m.inbox }))
unfolding project
project-cases request_id sha256 e event_id now d d' {n} h =
    elim (Result-cases (handle request_id sha256 e event_id now d)) [
      | inl ((k, m), handled) ↦ elim (Bool-cases (elem e.id d.inbox)) [
        | inl seen ↦ inl (ground arith, seen)
        | inr new ↦ inr (m, ground arith, ground arith)
      ]
      | inr (problem, refused) ↦ elim (Bool-cases (elem e.id d.inbox)) [
        | inl seen ↦ inl (ground arith, seen)
        | inr new ↦ ground arith
      ]
    ]

Step-Settles : {g : Config} {d d' : Db} → Step g d d' → Settles d d'
Step-Settles {g} {d} {d'} (created owner key p id now r e) =
    create_conversation-Settles g.conversation_digest owner key p id now d d' e
Step-Settles {g} {d} {d'} (messaged owner id key p event_id now r e) =
    create_message-Settles g.message_digest owner id key p event_id now d d' e
Step-Settles {g} {d} {d'} (answered owner id key a event_id now r e) =
    answer_input-Settles g.answer_digest owner id key a event_id now d d' e
Step-Settles {g} {d} {d'} (projected v event_id now n e) =
    elim (project-cases g.request_id g.text_digest v event_id now d d' e) [
      | inl (same, seen) ↦ rw same (λ k w f q. f, λ h. h)
      | inr (m, handled, new) ↦
          let (i, f, o) = handle-Mild g.request_id g.text_digest v event_id now d m handled in
          rw new (f, o)
    ]

-- Through every interleaving of transactions a message that is completed, interrupted or failed
-- keeps its row, unchanged in every column.
pub ended_message_is_final :
    {g : Config} {d d' : Db} (message : Uuid) (m : Message)
    → Steps g d d'
    → lookup message d.messages ≡ some m
    → IsOver m
    → lookup message d'.messages ≡ some m
ended_message_is_final message m here found over = found
ended_message_is_final message m (next ss s) found over =
    (Step-Settles s).0 message m (ended_message_is_final message m ss found over) over

-- Through every interleaving of transactions the outbox confirms the messages of a run at most once,
-- and only where the run's proposal has the confirmation recorded.
pub Steps-IsConfirmedOnce :
    {g : Config} {d d' : Db} → IsConfirmedOnce d → Steps g d d' → IsConfirmedOnce d'
Steps-IsConfirmedOnce h here = h
Steps-IsConfirmedOnce h (next ss s) = (Step-Settles s).1 (Steps-IsConfirmedOnce h ss)

-- An event that was projected has no effect when it is delivered again, at whatever time: the second
-- call returns none and leaves the database as it is.
pub project_once :
    (request_id : Uuid → Uuid) (sha256 : Text → Digest) (e : RuntimeEvent)
    (event_id event_id' : Uuid) (now now' : Time) (d d' : Db) {n : Option ℕ}
    → project request_id sha256 e event_id now d ≡ ok (n, d')
    → project request_id sha256 e event_id' now' d' ≡ ok (none, d')
unfolding project
project_once request_id sha256 e event_id event_id' now now' d d' h =
    elim (project-cases request_id sha256 e event_id now d d' h) [
      | inl (same, seen) ↦ ground arith
      | inr (m, handled, new) ↦ ground arith
    ]

-- Whoever repeats a message that was accepted, with the same key and content, gets the same message
-- and sequence number, and nothing changes, whatever the time and the event id are then.
pub create_message_repeats :
    (digest : NewMessage → Digest) (owner id : Uuid) (key : Key) (p : NewMessage)
    (event_id event_id' : Uuid) (now now' : Time) (d d' : Db) {r : (Uuid × Message) × ℕ}
    → create_message digest owner id key p event_id now d ≡ ok (r, d')
    → create_message digest owner id key p event_id' now' d' ≡ ok (r, d')
unfolding create_message store_message request_run present owned find_request
create_message_repeats digest owner id key p event_id event_id' now now' d d' h =
    elim (Option-cases (find_request owner (message_of id) key d.requests)) [
      | inl new ↦ grind (arith, lookup-put, lookup-update_where)
      | inr (r, old) ↦ ground arith
    ]
