-- ===== src/Conversation/Sequences.antt =====
-- The presentation events of a conversation (`_present` of
-- services/conversation-service/conversation_service/store.py) are numbered 1, 2, 3, … without gaps.
use porfirium.Prelude.{
  ℕ, zero, suc, ◌≡◌, inl, inr, Option, none, some, List, [], ◌∷◌, Uuid, Digest, Key, Time, ◌==◌,
  lookup, lookup-put, lookup-update_where, Result, ok, ◌||◌, not, length, Result-cases,
  succeeds-split, Option-cases, Bool-cases, arith,
}
use porfirium.Conversation.State.{
  Problem, Conversation, Message, EventBody, CompletionData, Text, Json, Presentation, Db,
  sequences, present, find_request, creation, message_of, input_of, MessageStatus,
}
use porfirium.Conversation.Requests.{
  NewConversation, NewMessage, Answer, create_conversation, create_message, answer_input,
  new_conversation, store_message, request_run, request_resumed, accept_answer,
}
use porfirium.Conversation.Events.{
  RuntimeEvent, propose_result, confirm_messages, insert_proposal, start_message, add_delta,
  complete_message, complete_row, confirm_completed, end_message, end_row, presenting,
  reconcile_suspension, open_request, commit_suspension, propose_request, store_commitment,
  store_request, find_input, handle, project,
}
use porfirium.Conversation.Steps.{Config, Steps, here, next, created, messaged, answered, projected}

-- n, n - 1, …, 1
unfoldable pub countdown : ℕ → List ℕ
countdown zero = []
countdown (suc n) = suc n ∷ countdown n

abbrev pub last_of : Option Conversation → ℕ
last_of none = 0
last_of (some c) = c.last_sequence

-- Each conversation's events are numbered from its last sequence number down to 1.
abbrev pub IsSequenced : Db → Type 0
IsSequenced d =
    (c : Uuid) → sequences c d.presented ≡ countdown (last_of (lookup c d.conversations))

-- Nothing was presented.
abbrev Silent : Db → Db → Type 0
Silent d d' = (d'.conversations ≡ d.conversations) × (d'.presented ≡ d.presented)

present-IsSequenced :
    (id : Uuid) (shown : Presentation) (now : Time) (d d' : Db) {n : ℕ}
    → IsSequenced d
    → present id shown now d ≡ ok (n, d')
    → IsSequenced d'
unfolding present sequences countdown
present-IsSequenced id shown now d d' h e c = elim (Bool-cases (id == c)) [
  | inl same ↦ grind (arith, h c, lookup-update_where)
  | inr other ↦ grind (arith, h c, lookup-update_where)
]

confirm_messages-Silent :
    (run : Uuid) (ids : List Uuid) (event_id : Uuid) (d d' : Db)
    → confirm_messages run ids event_id d ≡ ok d'
    → Silent d d'
unfolding confirm_messages
confirm_messages-Silent run ids event_id d d' e = (ground arith, ground arith)

propose_result-Silent :
    (e : RuntimeEvent) (ids : List Uuid) (event_id : Uuid) (d d' : Db)
    → propose_result e ids event_id d ≡ ok d'
    → Silent d d'
unfolding propose_result insert_proposal confirm_messages
propose_result-Silent e ids event_id d d' h = (ground arith, ground arith)

start_message-Silent :
    (e : RuntimeEvent) (message : Option Uuid) (now : Time) (d d' : Db)
    → start_message e message now d ≡ ok d'
    → Silent d d'
unfolding start_message
start_message-Silent e message now d d' h = (ground arith, ground arith)

add_delta-Silent :
    (e : RuntimeEvent) (message : Option Uuid) (chunk : ℕ) (content : Text) (d d' : Db)
    → add_delta e message chunk content d ≡ ok d'
    → Silent d d'
unfolding add_delta
add_delta-Silent e message chunk content d d' h = (ground arith, ground arith)

complete_message-Silent :
    (sha256 : Text → Digest) (e : RuntimeEvent) (message : Option Uuid)
    (metadata : Option CompletionData) (reason : Text) (usage : Json) (event_id : Uuid) (now : Time)
    (d d' : Db)
    → complete_message sha256 e message metadata reason usage event_id now d ≡ ok d'
    → Silent d d'
unfolding complete_message complete_row confirm_completed confirm_messages
complete_message-Silent sha256 e message metadata reason usage event_id now d d' h =
    (ground arith, ground arith)

end_message-Silent :
    (e : RuntimeEvent) (message : Option Uuid) (status : MessageStatus) (now : Time) (d d' : Db)
    → end_message e message status now d ≡ ok d'
    → Silent d d'
unfolding end_message end_row
end_message-Silent e message status now d d' h = (ground arith, ground arith)

presenting-IsSequenced :
    (e : RuntimeEvent) (now : Time) (stored : Result Problem Db) (d d' : Db) {n : Option ℕ}
    → ((m : Db) → stored ≡ ok m → Silent d m)
    → IsSequenced d
    → presenting e now stored ≡ ok (n, d')
    → IsSequenced d'
unfolding presenting
presenting-IsSequenced e now stored d d' silent h made =
    let (m, first, rest) = succeeds-split stored _ made in
    let ((k, m'), shown, done) = succeeds-split (present e.conversation_id _ now m) _ rest in
    let (same, none_shown) = silent m first in
    let h' : IsSequenced m = λ c. rw (same, none_shown) (h c) in
    let eq : m' ≡ d' = ground arith in
    rw (← eq) (present-IsSequenced e.conversation_id _ now m m' h' shown)

reconcile_suspension-IsSequenced :
    (suspension : Uuid) (now : Time) (d d' : Db) {n : Option ℕ}
    → IsSequenced d
    → reconcile_suspension suspension now d ≡ ok (n, d')
    → IsSequenced d'
unfolding reconcile_suspension open_request present sequences countdown
reconcile_suspension-IsSequenced suspension now d d' h e c = grind (arith, h c, lookup-update_where)

commit_suspension-IsSequenced :
    (e : RuntimeEvent) (suspension checkpoint request : Uuid) (now : Time) (d d' : Db)
    {n : Option ℕ}
    → IsSequenced d
    → commit_suspension e suspension checkpoint request now d ≡ ok (n, d')
    → IsSequenced d'
unfolding commit_suspension store_commitment
commit_suspension-IsSequenced e suspension checkpoint request now d d' {n} h made =
    elim (Option-cases (lookup suspension d.commitments)) [
      | inl new ↦
          reconcile_suspension-IsSequenced suspension now
            (store_commitment e suspension checkpoint request d) d' {n = n} h (ground arith)
      | inr (c, old) ↦ reconcile_suspension-IsSequenced suspension now d d' {n = n} h (ground arith)
    ]

propose_request-IsSequenced :
    (request_id : Uuid → Uuid) (e : RuntimeEvent) (suspension checkpoint : Uuid) (prompt : Text)
    (schema : Json) (now : Time) (d d' : Db) {n : Option ℕ}
    → IsSequenced d
    → propose_request request_id e suspension checkpoint prompt schema now d ≡ ok (n, d')
    → IsSequenced d'
unfolding propose_request store_request
propose_request-IsSequenced request_id e suspension checkpoint prompt schema now d d' {n} h made =
    elim (Option-cases (find_input suspension d.inputs)) [
      | inl new ↦
          let m =
            store_request (request_id suspension) e suspension checkpoint prompt schema now d in
          reconcile_suspension-IsSequenced suspension now m d' {n = n} h (ground arith)
      | inr (r, old) ↦ reconcile_suspension-IsSequenced suspension now d d' {n = n} h (ground arith)
    ]

handle-IsSequenced :
    (request_id : Uuid → Uuid) (sha256 : Text → Digest) (e : RuntimeEvent) (event_id : Uuid)
    (now : Time) (d d' : Db) {n : Option ℕ}
    → IsSequenced d
    → handle request_id sha256 e event_id now d ≡ ok (n, d')
    → IsSequenced d'
unfolding handle
handle-IsSequenced request_id sha256 e event_id now d d' {n} h made = go e.body made
  where
    go :
        (b : EventBody)
        → handle request_id sha256 (record e { body = b }) event_id now d ≡ ok (n, d')
        → IsSequenced d'
    go (EventBody.result_proposed ids wanted) k =
        elim (Bool-cases (length ids == 0 || not wanted)) [
          | inl nothing ↦ let eq : d ≡ d' = ground arith in rw (← eq) h
          | inr proposed ↦
              let v = record e { body = EventBody.result_proposed ids wanted } in
              presenting-IsSequenced v now (propose_result v ids event_id d) d d' {n = n}
                (λ m. propose_result-Silent v ids event_id d m) h (ground arith)
        ]
    go (EventBody.suspension_committed suspension checkpoint request) k =
        let v = record e { body = EventBody.suspension_committed suspension checkpoint request } in
        commit_suspension-IsSequenced v suspension checkpoint request now d d' {n = n} h k
    go (EventBody.message_started message) k =
        let v = record e { body = EventBody.message_started message } in
        presenting-IsSequenced v now (start_message v message now d) d d' {n = n}
          (λ m. start_message-Silent v message now d m) h k
    go (EventBody.message_delta message chunk content) k =
        let v = record e { body = EventBody.message_delta message chunk content } in
        presenting-IsSequenced v now (add_delta v message chunk content d) d d' {n = n}
          (λ m. add_delta-Silent v message chunk content d m) h k
    go (EventBody.message_completed message metadata reason usage) k =
        let v = record e { body = EventBody.message_completed message metadata reason usage } in
        presenting-IsSequenced v now
          (complete_message sha256 v message metadata reason usage event_id now d) d d' {n = n}
          (λ m. complete_message-Silent sha256 v message metadata reason usage event_id now d m) h k
    go (EventBody.message_interrupted message) k =
        let v = record e { body = EventBody.message_interrupted message } in
        presenting-IsSequenced v now (end_message v message MessageStatus.interrupted now d) d d'
          {n = n} (λ m. end_message-Silent v message MessageStatus.interrupted now d m) h k
    go (EventBody.message_failed message) k =
        let v = record e { body = EventBody.message_failed message } in
        presenting-IsSequenced v now (end_message v message MessageStatus.failed now d) d d' {n = n}
          (λ m. end_message-Silent v message MessageStatus.failed now d m) h k
    go (EventBody.request_proposed suspension checkpoint prompt schema) k =
        let v = record e {
          body = EventBody.request_proposed suspension checkpoint prompt schema;
        } in
        propose_request-IsSequenced request_id v suspension checkpoint prompt schema now d d'
          {n = n} h k
    go EventBody.unsupported k = cc

project-IsSequenced :
    (request_id : Uuid → Uuid) (sha256 : Text → Digest) (e : RuntimeEvent) (event_id : Uuid)
    (now : Time) (d d' : Db) {n : Option ℕ}
    → IsSequenced d
    → project request_id sha256 e event_id now d ≡ ok (n, d')
    → IsSequenced d'
unfolding project
project-IsSequenced request_id sha256 e event_id now d d' h made =
    elim (Result-cases (handle request_id sha256 e event_id now d)) [
      | inl ((k, m), handled) ↦
          let kept = handle-IsSequenced request_id sha256 e event_id now d m h handled in
          λ c. grind (arith, h c, kept c)
      | inr (problem, refused) ↦ λ c. ground (arith, h c)
    ]

create_conversation-IsSequenced :
    (digest : NewConversation → Digest) (owner : Uuid) (key : Key) (p : NewConversation) (id : Uuid)
    (now : Time) (d d' : Db) {r : Uuid × Conversation}
    → IsSequenced d
    → create_conversation digest owner key p id now d ≡ ok (r, d')
    → IsSequenced d'
unfolding create_conversation countdown new_conversation
create_conversation-IsSequenced digest owner key p id now d d' h made c =
    elim (Option-cases (find_request owner creation key d.requests)) [
      | inl new ↦ elim (Bool-cases (id == c)) [
        | inl same ↦ grind (arith, h c, lookup-put)
        | inr other ↦ grind (arith, h c, lookup-put)
      ]
      | inr (r, old) ↦ ground (arith, h c)
    ]

create_message-IsSequenced :
    (digest : NewMessage → Digest) (owner id : Uuid) (key : Key) (p : NewMessage) (event_id : Uuid)
    (now : Time) (d d' : Db) {r : (Uuid × Message) × ℕ}
    → IsSequenced d
    → create_message digest owner id key p event_id now d ≡ ok (r, d')
    → IsSequenced d'
unfolding create_message store_message request_run present sequences countdown
create_message-IsSequenced digest owner id key p event_id now d d' h made c =
    elim (Option-cases (find_request owner (message_of id) key d.requests)) [
      | inl new ↦ grind (arith, h c, lookup-update_where)
      | inr (r, old) ↦ ground (arith, h c)
    ]

answer_input-IsSequenced :
    (digest : Answer → Digest) (owner id : Uuid) (key : Key) (a : Answer) (event_id : Uuid)
    (now : Time) (d d' : Db) {r : Uuid × ℕ}
    → IsSequenced d
    → answer_input digest owner id key a event_id now d ≡ ok (r, d')
    → IsSequenced d'
unfolding answer_input accept_answer request_resumed present sequences countdown
answer_input-IsSequenced digest owner id key a event_id now d d' h made c =
    elim (Option-cases (find_request owner (input_of id) key d.requests)) [
      | inl new ↦ grind (arith, h c, lookup-update_where)
      | inr (r, old) ↦ ground (arith, h c)
    ]

-- Through every interleaving of transactions the events shown of a conversation are numbered by its
-- last sequence number, one less, and so on down to 1, with no gap and no repetition.
pub Steps-IsSequenced : {g : Config} {d d' : Db} → IsSequenced d → Steps g d d' → IsSequenced d'
Steps-IsSequenced h here = h
Steps-IsSequenced {g} h (next {m = m} {d' = d'} ss (created owner key p id now r e)) =
    create_conversation-IsSequenced g.conversation_digest owner key p id now m d'
      (Steps-IsSequenced h ss) e
Steps-IsSequenced {g} h (next {m = m} {d' = d'} ss (messaged owner id key p event_id now r e)) =
    create_message-IsSequenced g.message_digest owner id key p event_id now m d'
      (Steps-IsSequenced h ss) e
Steps-IsSequenced {g} h (next {m = m} {d' = d'} ss (answered owner id key a event_id now r e)) =
    answer_input-IsSequenced g.answer_digest owner id key a event_id now m d'
      (Steps-IsSequenced h ss) e
Steps-IsSequenced {g} h (next {m = m} {d' = d'} ss (projected v event_id now n e)) =
    project-IsSequenced g.request_id g.text_digest v event_id now m d' (Steps-IsSequenced h ss) e
