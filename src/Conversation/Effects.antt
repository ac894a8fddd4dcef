-- ===== src/Conversation/Effects.antt =====
-- What the handlers of services/conversation-service/conversation_service/store.py leave alone: the
-- inbox, the messages that have ended, and the account of confirmations.
use porfirium.Prelude.{
  or_raise, ℕ, suc, ◌≡◌, refl, ◌∙◌, inl, inr, Bool, true, false, ◌||◌, not, Option, none, some,
  List, [], ◌∷◌, Uuid, Digest, Time, ◌==◌, if◌then◌else◌, Table, lookup, update_where, lookup-put,
  lookup-update_where, indicator, Frozen, Result, ok, is_some, length, succeeds-split, Option-cases,
  Bool-cases, arith, ◌≤◌,
}
use porfirium.Conversation.State.{
  Problem, Message, EventBody, CompletionData, Text, Json, Presentation, Db, Event, ResultProposal,
  run_requested, messages_committed, completion_invalid, present, MessageStatus, is_streaming,
}
use porfirium.Conversation.Events.{
  RuntimeEvent, propose_result, confirm_messages, insert_proposal, start_message, add_delta,
  require_streaming, validate_completion, chunks_of, complete_message, complete_row,
  confirm_completed, end_message, presenting, reconcile_suspension, open_request, commit_suspension,
  propose_request, end_row, join, in_order, count_messages, done_in, all_done, store_commitment,
  store_request, find_input, handle,
}

-- The message has ended.
abbrev pub IsOver : Message → Type 0
IsOver m = is_streaming m.status ≡ false

abbrev pub confirms : Uuid → Event → Bool
confirms run (run_requested r) = false
confirms run (messages_committed c) = c.run_id == run

-- How often the outbox confirms the messages of a run.
unfoldable pub confirmations : Uuid → List (Uuid × Event) → ℕ
confirmations run [] = 0
confirmations run ((_, e) ∷ es) =
    let rest = confirmations run es in if confirms run e then suc rest else rest

abbrev pub is_confirmed : ResultProposal → Bool
is_confirmed p = is_some p.confirmation_event_id

-- At most one confirmation of a run, and none but of a proposal that has it recorded.
abbrev pub IsConfirmedOnce : Db → Type 0
IsConfirmedOnce d =
    (run : Uuid) → confirmations run d.outbox ≤ indicator is_confirmed (lookup run d.proposals)

abbrev pub Mild : Db → Db → Type 0
Mild d d' =
    (d'.inbox ≡ d.inbox)
    × Frozen IsOver d.messages d'.messages
    × (IsConfirmedOnce d → IsConfirmedOnce d')

Mild-trans : (a b c : Db) → Mild a b → Mild b c → Mild a c
Mild-trans a b c (i, f, o) (i', f', o') = (i' ∙ i, λ k v e q. f' k v (f k v e q) q, λ h. o' (o h))

-- An update of a row that is no such row leaves those that are.
Frozen-update_found :
    (k : Uuid) (p : Message → Bool) (f : Message → Message) (t : Table Message) {v : Message}
    → lookup k t ≡ some v
    → is_streaming v.status ≡ true
    → Frozen IsOver t (update_where k p f t)
Frozen-update_found k p f t found other j w e q = elim (Bool-cases (k == j)) [
  | inl same ↦ ground arith
  | inr apart ↦ ground (arith, lookup-update_where k j p f t)
]

present-Mild :
    (id : Uuid) (shown : Presentation) (now : Time) (d d' : Db) {n : ℕ}
    → present id shown now d ≡ ok (n, d')
    → Mild d d'
unfolding present
present-Mild id shown now d d' e =
    (ground arith, λ k v f q. ground arith, λ h run. ground (arith, h run))

confirm_messages-Mild :
    (run : Uuid) (ids : List Uuid) (event_id : Uuid) (d d' : Db)
    → confirm_messages run ids event_id d ≡ ok d'
    → Mild d d'
unfolding confirm_messages confirmations
confirm_messages-Mild run ids event_id d d' e = (
  ground arith,
  λ k v f q. ground arith,
  λ h r. elim (Bool-cases (run == r)) [
    | inl same ↦ grind (arith, h r, lookup-update_where)
    | inr other ↦ grind (arith, h r, lookup-update_where)
  ],
)

insert_proposal-Mild :
    (e : RuntimeEvent) (ids : List Uuid) (d : Db) → Mild d (insert_proposal e ids d)
unfolding insert_proposal
insert_proposal-Mild e ids d =
    (ground arith, λ k v f q. ground arith, λ h r. grind (arith, h r, lookup-put))

propose_result-Mild :
    (e : RuntimeEvent) (ids : List Uuid) (event_id : Uuid) (d d' : Db)
    → propose_result e ids event_id d ≡ ok d'
    → Mild d d'
unfolding propose_result
propose_result-Mild e ids event_id d d' h =
    let m = insert_proposal e ids d in
    let first = insert_proposal-Mild e ids d in
    elim (Bool-cases (all_done e ids d)) [
      | inl done ↦
          Mild-trans d m d' first (confirm_messages-Mild e.run_id ids event_id m d' (ground arith))
      | inr not_done ↦ let eq : m ≡ d' = ground arith in rw (← eq) first
    ]

start_message-Mild :
    (e : RuntimeEvent) (message : Option Uuid) (now : Time) (d d' : Db)
    → start_message e message now d ≡ ok d'
    → Mild d d'
unfolding start_message
start_message-Mild e message now d d' h =
    (ground arith, λ k v f q. grind (arith, lookup-put), λ o run. ground (arith, o run))

add_delta-Mild :
    (e : RuntimeEvent) (message : Option Uuid) (chunk : ℕ) (content : Text) (d d' : Db)
    → add_delta e message chunk content d ≡ ok d'
    → Mild d d'
unfolding add_delta
add_delta-Mild e message chunk content d d' h =
    (ground arith, λ k v f q. ground arith, λ o run. ground (arith, o run))

require_streaming-found :
    (message : Option Uuid) (conversation : Uuid) (d : Db) {id : Uuid}
    → require_streaming message conversation d ≡ ok id
    → (m : Message) × (lookup id d.messages ≡ some m) × (is_streaming m.status ≡ true)
unfolding require_streaming
require_streaming-found none conversation d h = cc
require_streaming-found (some k) conversation d h = elim (Option-cases (lookup k d.messages)) [
  | inl absent ↦ ground arith
  | inr (m, found) ↦ (m, ground arith, ground arith)
]

end_message-Mild :
    (e : RuntimeEvent) (message : Option Uuid) (status : MessageStatus) (now : Time) (d d' : Db)
    → end_message e message status now d ≡ ok d'
    → Mild d d'
unfolding end_message end_row
end_message-Mild e message status now d d' h =
    let (id, streaming, done) =
      succeeds-split (require_streaming message e.conversation_id d) _ h in
    let (m, found, is) = require_streaming-found message e.conversation_id d streaming in
    let ended = end_row id status (join (in_order (chunks_of id d))) now d in
    let eq : ended ≡ d' = ground arith in
    rw (← eq) (refl, Frozen-update_found id _ _ d.messages found is, λ o. o)

complete_row-Mild :
    (id : Uuid) (content reason : Text) (usage : Json) (now : Time) (d : Db) {m : Message}
    → lookup id d.messages ≡ some m
    → is_streaming m.status ≡ true
    → Mild d (complete_row id content reason usage now d)
unfolding complete_row
complete_row-Mild id content reason usage now d found is =
    (refl, Frozen-update_found id _ _ d.messages found is, λ o. o)

confirm_completed-Mild :
    (e : RuntimeEvent) (event_id : Uuid) (d d' : Db)
    → confirm_completed e event_id d ≡ ok d'
    → Mild d d'
unfolding confirm_completed
confirm_completed-Mild e event_id d d' h = elim (Option-cases (lookup e.run_id d.proposals)) [
  | inl absent ↦ let eq : d ≡ d' = ground arith in rw (← eq) (refl, λ k v f q. f, λ o. o)
  | inr (p, found) ↦
      let all = count_messages (done_in e.run_id) p.final_message_ids d.messages in
      elim (Bool-cases (all == length p.final_message_ids)) [
        | inl done ↦ confirm_messages-Mild e.run_id p.final_message_ids event_id d d' (ground arith)
        | inr not_done ↦ let eq : d ≡ d' = ground arith in rw (← eq) (refl, λ k v f q. f, λ o. o)
      ]
]

complete_message-Mild :
    (sha256 : Text → Digest) (e : RuntimeEvent) (message : Option Uuid)
    (metadata : Option CompletionData) (reason : Text) (usage : Json) (event_id : Uuid) (now : Time)
    (d d' : Db)
    → complete_message sha256 e message metadata reason usage event_id now d ≡ ok d'
    → Mild d d'
unfolding complete_message
complete_message-Mild sha256 e message metadata reason usage event_id now d d' h =
    let (id, streaming, rest) =
      succeeds-split (require_streaming message e.conversation_id d) _ h in
    let (given, read, more) = succeeds-split (or_raise metadata completion_invalid) _ rest in
    let (content, valid, last) =
      succeeds-split (validate_completion sha256 given (chunks_of id d)) _ more in
    let (m, found, is) = require_streaming-found message e.conversation_id d streaming in
    let row = complete_row id content reason usage now d in
    Mild-trans d row d' (complete_row-Mild id content reason usage now d found is)
      (confirm_completed-Mild e event_id row d' last)

presenting-Mild :
    (e : RuntimeEvent) (now : Time) (stored : Result Problem Db) (d d' : Db) {n : Option ℕ}
    → ((m : Db) → stored ≡ ok m → Mild d m)
    → presenting e now stored ≡ ok (n, d')
    → Mild d d'
unfolding presenting
presenting-Mild e now stored d d' mild made =
    let (m, first, rest) = succeeds-split stored _ made in
    let ((k, m'), shown, done) = succeeds-split (present e.conversation_id _ now m) _ rest in
    let eq : m' ≡ d' = ground arith in
    rw (← eq) (Mild-trans d m m' (mild m first) (present-Mild e.conversation_id _ now m m' shown))

reconcile_suspension-Mild :
    (suspension : Uuid) (now : Time) (d d' : Db) {n : Option ℕ}
    → reconcile_suspension suspension now d ≡ ok (n, d')
    → Mild d d'
unfolding reconcile_suspension open_request present
reconcile_suspension-Mild suspension now d d' e =
    (ground arith, λ k v f q. ground arith, λ o run. ground (arith, o run))

commit_suspension-Mild :
    (e : RuntimeEvent) (suspension checkpoint request : Uuid) (now : Time) (d d' : Db)
    {n : Option ℕ}
    → commit_suspension e suspension checkpoint request now d ≡ ok (n, d')
    → Mild d d'
unfolding commit_suspension store_commitment
commit_suspension-Mild e suspension checkpoint request now d d' {n} made =
    elim (Option-cases (lookup suspension d.commitments)) [
      | inl new ↦
          reconcile_suspension-Mild suspension now
            (store_commitment e suspension checkpoint request d) d' {n = n} (ground arith)
      | inr (c, old) ↦ reconcile_suspension-Mild suspension now d d' {n = n} (ground arith)
    ]

propose_request-Mild :
    (request_id : Uuid → Uuid) (e : RuntimeEvent) (suspension checkpoint : Uuid) (prompt : Text)
    (schema : Json) (now : Time) (d d' : Db) {n : Option ℕ}
    → propose_request request_id e suspension checkpoint prompt schema now d ≡ ok (n, d')
    → Mild d d'
unfolding propose_request store_request
propose_request-Mild request_id e suspension checkpoint prompt schema now d d' {n} made =
    elim (Option-cases (find_input suspension d.inputs)) [
      | inl new ↦
          let m =
            store_request (request_id suspension) e suspension checkpoint prompt schema now d in
          reconcile_suspension-Mild suspension now m d' {n = n} (ground arith)
      | inr (r, old) ↦ reconcile_suspension-Mild suspension now d d' {n = n} (ground arith)
    ]

pub handle-Mild :
    (request_id : Uuid → Uuid) (sha256 : Text → Digest) (e : RuntimeEvent) (event_id : Uuid)
    (now : Time) (d d' : Db) {n : Option ℕ}
    → handle request_id sha256 e event_id now d ≡ ok (n, d')
    → Mild d d'
unfolding handle
handle-Mild request_id sha256 e event_id now d d' {n} made = go e.body made
  where
    go :
        (b : EventBody)
        → handle request_id sha256 (record e { body = b }) event_id now d ≡ ok (n, d')
        → Mild d d'
    go (EventBody.result_proposed ids wanted) k =
        elim (Bool-cases (length ids == 0 || not wanted)) [
          | inl nothing ↦ let eq : d ≡ d' = ground arith in rw (← eq) (refl, λ k v f q. f, λ o. o)
          | inr proposed ↦
              let v = record e { body = EventBody.result_proposed ids wanted } in
              presenting-Mild v now (propose_result v ids event_id d) d d' {n = n}
                (λ m. propose_result-Mild v ids event_id d m) (ground arith)
        ]
    go (EventBody.suspension_committed suspension checkpoint request) k =
        let v = record e { body = EventBody.suspension_committed suspension checkpoint request } in
        commit_suspension-Mild v suspension checkpoint request now d d' {n = n} k
    go (EventBody.message_started message) k =
        let v = record e { body = EventBody.message_started message } in
        presenting-Mild v now (start_message v message now d) d d' {n = n}
          (λ m. start_message-Mild v message now d m) k
    go (EventBody.message_delta message chunk content) k =
        let v = record e { body = EventBody.message_delta message chunk content } in
        presenting-Mild v now (add_delta v message chunk content d) d d' {n = n}
          (λ m. add_delta-Mild v message chunk content d m) k
    go (EventBody.message_completed message metadata reason usage) k =
        let v = record e { body = EventBody.message_completed message metadata reason usage } in
        presenting-Mild v now
          (complete_message sha256 v message metadata reason usage event_id now d) d d' {n = n}
          (λ m. complete_message-Mild sha256 v message metadata reason usage event_id now d m) k
    go (EventBody.message_interrupted message) k =
        let v = record e { body = EventBody.message_interrupted message } in
        presenting-Mild v now (end_message v message MessageStatus.interrupted now d) d d' {n = n}
          (λ m. end_message-Mild v message MessageStatus.interrupted now d m) k
    go (EventBody.message_failed message) k =
        let v = record e { body = EventBody.message_failed message } in
        presenting-Mild v now (end_message v message MessageStatus.failed now d) d d' {n = n}
          (λ m. end_message-Mild v message MessageStatus.failed now d m) k
    go (EventBody.request_proposed suspension checkpoint prompt schema) k =
        let v = record e {
          body = EventBody.request_proposed suspension checkpoint prompt schema;
        } in
        propose_request-Mild request_id v suspension checkpoint prompt schema now d d' {n = n} k
    go EventBody.unsupported k = cc
