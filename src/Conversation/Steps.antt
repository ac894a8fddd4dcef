-- ===== src/Conversation/Steps.antt =====
-- The transactions of services/conversation-service/conversation_service/store.py in any order.
use porfirium.Prelude.{ℕ, ◌≡◌, Option, Uuid, Digest, Key, Time, ok}
use porfirium.Conversation.State.{Text, Conversation, Message, Db}
use porfirium.Conversation.Requests.{
  NewConversation, NewMessage, Answer, create_conversation, create_message, answer_input,
}
use porfirium.Conversation.Events.{RuntimeEvent, project}

-- The functions of the libraries that the service calls: SHA-256 of each kind of payload and of a
-- text, and uuid5 of a suspension.
pub record Config : Type 0 where
  pub conversation_digest : NewConversation → Digest
  pub message_digest : NewMessage → Digest
  pub answer_digest : Answer → Digest
  pub text_digest : Text → Digest
  pub request_id : Uuid → Uuid

-- One committed transaction.
pub data Step (g : Config) (d d' : Db) : Type 0 where
  created :
      (owner : Uuid) (key : Key) (p : NewConversation) (id : Uuid) (now : Time)
      (r : Uuid × Conversation)
      → create_conversation g.conversation_digest owner key p id now d ≡ ok (r, d')
      → Step g d d'
  messaged :
      (owner id : Uuid) (key : Key) (p : NewMessage) (event_id : Uuid) (now : Time)
      (r : (Uuid × Message) × ℕ)
      → create_message g.message_digest owner id key p event_id now d ≡ ok (r, d')
      → Step g d d'
  answered :
      (owner id : Uuid) (key : Key) (a : Answer) (event_id : Uuid) (now : Time) (r : Uuid × ℕ)
      → answer_input g.answer_digest owner id key a event_id now d ≡ ok (r, d')
      → Step g d d'
  projected :
      (e : RuntimeEvent) (event_id : Uuid) (now : Time) (n : Option ℕ)
      → project g.request_id g.text_digest e event_id now d ≡ ok (n, d')
      → Step g d d'

-- Any number of transactions.
pub data Steps (g : Config) (d : Db) : Db → Type 0 where
  here : Steps g d d
  next : {m d' : Db} → Steps g d m → Step g m d' → Steps g d d'
