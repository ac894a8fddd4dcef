-- ===== src/Conversation/Events.antt =====
-- `project` of services/conversation-service/conversation_service/store.py with its helpers, and
-- `validate_completion` of domain.py. An envelope here has passed `validate_event_envelope`.
use porfirium.Prelude.{
  ℕ, ◌+◌, zero, suc, Bool, true, ◌&&◌, ◌||◌, not, Option, none, some, List, [], ◌∷◌, ◌++◌, map,
  Uuid, Digest, Time, ◌==◌, ltb, is_some, elem, list_eq, length, find, select, if◌then◌else◌, Table,
  lookup, put, update_where, Result, ok, err, ◌>>=◌, ◌>>◌, raise_if, or_raise,
}
use porfirium.Conversation.State.{
  Text, Json, Problem, MessageStatus, InputState, Message, Chunk, InputRequest, CompletionData,
  EventBody, ResultProposal, Db, event_invalid, event_unsupported, suspension_conflict,
  delta_invalid, delta_conflict, completion_invalid, completion_incomplete, completion_mismatch,
  message_not_started, message_terminal, integrity_violation, uncaught, assistant, result_proposed,
  suspension_committed, message_started, message_delta, message_completed, message_interrupted,
  message_failed, request_proposed, unsupported, runtime, request_created, messages_committed,
  is_streaming, is_complete, is_reserved, owned, empty_object, sequences, present,
}

pub record RuntimeEvent : Type 0 where
  pub id : Uuid
  pub conversation_id : Uuid
  pub user_id : Uuid
  pub run_id : Uuid
  pub thread_id : Uuid
  pub traceparent : Text
  pub correlation_id : Uuid
  pub causation_id : Uuid
  pub body : EventBody

abbrev pub max_message_bytes : ℕ
max_message_bytes = 262144

abbrev pub max_chunks : ℕ
max_chunks = 65536

abbrev pub insert_chunk : Chunk → List Chunk → List Chunk
insert_chunk c [] = c ∷ []
insert_chunk c (x ∷ xs) =
    let rest = insert_chunk c xs in
    if ltb x.chunk_sequence c.chunk_sequence then x ∷ rest else c ∷ x ∷ xs

-- `ORDER BY chunk_sequence`
abbrev pub in_order : List Chunk → List Chunk
in_order [] = []
in_order (c ∷ cs) = insert_chunk c (in_order cs)

abbrev pub join : List Chunk → Text
join [] = []
join (c ∷ cs) = c.content ++ join cs

-- `range(first, first + n)`
abbrev pub range : ℕ → ℕ → List ℕ
range first zero = []
range first (suc n) = first ∷ range (first + 1) n

-- The chunks of one message are distinct in their sequence numbers.
unfoldable pub validate_completion :
    (Text → Digest) → CompletionData → List Chunk → Result Problem Text
validate_completion sha256 given chunks = do
  raise_if (ltb max_message_bytes (length given.content) || ltb max_chunks given.chunk_count)
      completion_invalid
  raise_if
      (not (length given.content == given.content_bytes)
        || not (sha256 given.content == given.content_sha256))
      completion_invalid
  raise_if
      (not (length chunks == given.chunk_count)
        || not (
            list_eq (map (λ (c : Chunk). c.chunk_sequence) (in_order chunks))
              (range 1 given.chunk_count)))
      completion_incomplete
  raise_if (not (list_eq (join (in_order chunks)) given.content)) completion_mismatch
  ok given.content

unfoldable pub chunks_of : Uuid → Db → List Chunk
chunks_of message d = select (λ c. c.message_id == message) d.chunks

-- `_require_streaming`, which gives the message's id
unfoldable pub require_streaming : Option Uuid → Uuid → Db → Result Problem Uuid
require_streaming message conversation d = do
  id ← or_raise message message_not_started
  m ← or_raise (lookup id d.messages) message_not_started
  raise_if (not (m.conversation_id == conversation)) message_not_started
  raise_if (not (is_streaming m.status)) message_terminal
  ok id

-- `SELECT count(*) FROM messages WHERE message_id=ANY(ids) AND p`
unfoldable pub count_messages : (Message → Bool) → List Uuid → Table Message → ℕ
count_messages p ids [] = 0
count_messages p ids ((id, m) ∷ t) =
    let rest = count_messages p ids t in if elem id ids && p m then suc rest else rest

unfoldable pub greatest : List ℕ → ℕ
greatest [] = 0
greatest (n ∷ ns) = let rest = greatest ns in if ltb rest n then n else rest

-- `_confirm_messages`; `event_id` is new.
unfoldable pub confirm_messages : Uuid → List Uuid → Uuid → Db → Result Problem Db
confirm_messages run ids event_id d = do
  p ← or_raise (lookup run d.proposals) uncaught
  c ← or_raise (lookup p.conversation_id d.conversations) uncaught
  ok (
      if is_some p.confirmation_event_id then d else record d {
        outbox =
            (
              event_id,
              messages_committed (record {
                user_id = c.owner_id;
                conversation_id = p.conversation_id;
                thread_id = c.thread_id;
                run_id = run;
                correlation_id = p.correlation_id;
                causation_id = p.event_id;
                message_ids = ids;
                conversation_sequence =
                    (let n = greatest (sequences p.conversation_id d.presented) in
                      if ltb n 1 then 1 else n);
              }),
            )
            ∷ d.outbox;
        proposals =
            update_where run (λ _. true) (λ p. record p { confirmation_event_id = some event_id })
              d.proposals;
      })

unfoldable pub proposal_of : RuntimeEvent → List Uuid → ResultProposal
proposal_of e ids = record {
  event_id = e.id;
  conversation_id = e.conversation_id;
  final_message_ids = ids;
  traceparent = e.traceparent;
  correlation_id = e.correlation_id;
  causation_id = e.causation_id;
  confirmation_event_id = none;
}

-- `INSERT INTO result_proposals … ON CONFLICT(run_id) DO NOTHING`. The inbox keeps `event_id` unique.
unfoldable pub insert_proposal : RuntimeEvent → List Uuid → Db → Db
insert_proposal e ids d =
    if is_some (lookup e.run_id d.proposals)
    then d
    else record d { proposals = put e.run_id (proposal_of e ids) d.proposals }

-- A completed message of this run
abbrev pub done_in : Uuid → Message → Bool
done_in run m = m.run_id == run && is_complete m.status

-- As many of the messages are completed as were proposed.
unfoldable pub all_done : RuntimeEvent → List Uuid → Db → Bool
all_done e ids d =
    count_messages (λ m. m.conversation_id == e.conversation_id && done_in e.run_id m) ids
      d.messages
    == length ids

-- The rows of `porfirium.run.result_proposed.v1`, before it is presented.
unfoldable pub propose_result : RuntimeEvent → List Uuid → Uuid → Db → Result Problem Db
propose_result e ids event_id d =
    let stored = insert_proposal e ids d in
    if all_done e ids d then confirm_messages e.run_id ids event_id stored else ok stored

-- The request of a suspension, with its id.
unfoldable pub find_input : Uuid → Table InputRequest → Option (Uuid × InputRequest)
find_input suspension = find λ row. row.1.suspension_id == suspension

-- The writes of `_reconcile_suspension`, for a request that is still reserved. Its suspension is
-- unique, so the update is that of the row.
unfoldable pub open_request : Uuid → InputRequest → Time → Db → Result Problem (Option ℕ × Db)
open_request id row now d = do
  r ← present row.conversation_id (request_created id row) now (record d {
    inputs = update_where id (λ _. true) (λ r. record r { state = InputState.pending }) d.inputs;
  })
  ok (some r.0, r.1)

-- `_reconcile_suspension`
unfoldable pub reconcile_suspension : Uuid → Time → Db → Result Problem (Option ℕ × Db)
reconcile_suspension suspension now d = elim (find_input suspension d.inputs) [
  | none ↦ ok (none, d)
  | some row ↦ elim (lookup suspension d.commitments) [
    | none ↦ ok (none, d)
    | some c ↦ do
      raise_if
          (not (row.0 == c.input_request_id)
            || not (row.1.checkpoint_id == c.checkpoint_id)
            || not (row.1.run_id == c.run_id))
          suspension_conflict
      if is_reserved row.1.state then open_request row.0 row.1 now d else ok (none, d)
  ]
]

unfoldable pub store_commitment : RuntimeEvent → Uuid → Uuid → Uuid → Db → Db
store_commitment e suspension checkpoint request d = record d {
  commitments =
      put suspension
        (record {
          event_id = e.id;
          run_id = e.run_id;
          checkpoint_id = checkpoint;
          input_request_id = request;
        })
        d.commitments;
}

-- `porfirium.run.suspension_committed.v1`
unfoldable pub commit_suspension :
    RuntimeEvent → Uuid → Uuid → Uuid → Time → Db → Result Problem (Option ℕ × Db)
commit_suspension e suspension checkpoint request now d = elim (lookup suspension d.commitments) [
  | some c ↦ do
    raise_if
        (not (c.run_id == e.run_id)
          || not (c.checkpoint_id == checkpoint)
          || not (c.input_request_id == request))
        suspension_conflict
    reconcile_suspension suspension now d
  | none ↦ reconcile_suspension suspension now (store_commitment e suspension checkpoint request d)
]

unfoldable pub reserved_request :
    RuntimeEvent → Uuid → Uuid → Text → Json → Time → Db → InputRequest
reserved_request e suspension checkpoint prompt schema now d = record {
  conversation_id = e.conversation_id;
  run_id = e.run_id;
  suspension_id = suspension;
  checkpoint_id = checkpoint;
  prompt = prompt;
  schema = schema;
  delegation_grant_id = elim (lookup e.conversation_id d.conversations) [
    | none ↦ none
    | some c ↦ c.delegation_grant_id
  ];
  state = InputState.reserved;
  response = none;
  response_run_id = none;
  created_at = now;
  answered_at = none;
}

-- `id` is uuid5 of the suspension.
unfoldable pub store_request : Uuid → RuntimeEvent → Uuid → Uuid → Text → Json → Time → Db → Db
store_request id e suspension checkpoint prompt schema now d = record d {
  inputs = put id (reserved_request e suspension checkpoint prompt schema now d) d.inputs;
}

-- `porfirium.input.request_proposed.v1`: `ON CONFLICT(suspension_id) DO NOTHING`
unfoldable pub propose_request :
    (Uuid → Uuid)
    → RuntimeEvent
    → Uuid
    → Uuid
    → Text
    → Json
    → Time
    → Db
    → Result Problem (Option ℕ × Db)
propose_request request_id e suspension checkpoint prompt schema now d =
    if is_some (find_input suspension d.inputs) then reconcile_suspension suspension now d else do
      raise_if (is_some (lookup (request_id suspension) d.inputs)) integrity_violation
      reconcile_suspension suspension now
          (store_request (request_id suspension) e suspension checkpoint prompt schema now d)

unfoldable pub started_message : RuntimeEvent → Time → Message
started_message e now = record {
  conversation_id = e.conversation_id;
  run_id = e.run_id;
  role = assistant;
  status = MessageStatus.streaming;
  content = [];
  finish_reason = none;
  usage = empty_object;
  created_at = now;
  completed_at = none;
}

-- `porfirium.message.started.v1`: `ON CONFLICT(message_id) DO NOTHING`
unfoldable pub start_message : RuntimeEvent → Option Uuid → Time → Db → Result Problem Db
start_message e message now d = do
  id ← or_raise message integrity_violation
  ok (
      if is_some (lookup id d.messages)
      then d
      else record d { messages = put id (started_message e now) d.messages })

-- `porfirium.message.delta.v1`
unfoldable pub add_delta : RuntimeEvent → Option Uuid → ℕ → Text → Db → Result Problem Db
add_delta e message chunk content d = do
  id ← require_streaming message e.conversation_id d
  raise_if (ltb chunk 1 || length content == 0 || ltb 4096 (length content)) delta_invalid
  elim (find (λ (c : Chunk). c.message_id == id && c.chunk_sequence == chunk) d.chunks) [
    | some old ↦ if list_eq old.content content then ok d else err delta_conflict
    | none ↦ ok (record d {
      chunks = record { message_id = id; chunk_sequence = chunk; content = content } ∷ d.chunks;
    })
  ]

-- `UPDATE messages SET status='completed', …`
unfoldable pub complete_row : Uuid → Text → Text → Json → Time → Db → Db
complete_row id content reason usage now d = record d {
  messages =
      update_where id (λ _. true)
        (λ m. record m {
          status = MessageStatus.completed;
          content = content;
          finish_reason = some reason;
          usage = usage;
          completed_at = some now;
        })
        d.messages;
}

-- The confirmation that a completed message may make possible.
unfoldable pub confirm_completed : RuntimeEvent → Uuid → Db → Result Problem Db
confirm_completed e event_id d = elim (lookup e.run_id d.proposals) [
  | none ↦ ok d
  | some p ↦
      if count_messages (done_in e.run_id) p.final_message_ids d.messages
        == length p.final_message_ids
      then confirm_messages e.run_id p.final_message_ids event_id d
      else ok d
]

-- `porfirium.message.completed.v1`
unfoldable pub complete_message :
    (Text → Digest)
    → RuntimeEvent
    → Option Uuid
    → Option CompletionData
    → Text
    → Json
    → Uuid
    → Time
    → Db
    → Result Problem Db
complete_message sha256 e message metadata reason usage event_id now d = do
  id ← require_streaming message e.conversation_id d
  given ← or_raise metadata completion_invalid
  content ← validate_completion sha256 given (chunks_of id d)
  confirm_completed e event_id (complete_row id content reason usage now d)

-- `UPDATE messages SET status=$2,content=$3,completed_at=now()`
unfoldable pub end_row : Uuid → MessageStatus → Text → Time → Db → Db
end_row id status content now d = record d {
  messages =
      update_where id (λ _. true)
        (λ m. record m { status = status; content = content; completed_at = some now }) d.messages;
}

-- `porfirium.message.interrupted.v1` and `porfirium.message.failed.v1`
unfoldable pub end_message :
    RuntimeEvent → Option Uuid → MessageStatus → Time → Db → Result Problem Db
end_message e message status now d = do
  id ← require_streaming message e.conversation_id d
  ok (end_row id status (join (in_order (chunks_of id d))) now d)

-- A handler's rows, and then the event itself is presented.
unfoldable pub presenting : RuntimeEvent → Time → Result Problem Db → Result Problem (Option ℕ × Db)
presenting e now stored = do
  d ← stored
  r ← present e.conversation_id (runtime e.body) now d
  ok (some r.0, r.1)

module _ (request_id : Uuid → Uuid) (sha256 : Text → Digest) where
  -- The dispatch on the event's type.
  unfoldable pub handle : RuntimeEvent → Uuid → Time → Db → Result Problem (Option ℕ × Db)
  handle e event_id now d = elim (e.body) [
    | result_proposed ids wanted ↦
        if length ids == 0 || not wanted
        then ok (none, d)
        else presenting e now (propose_result e ids event_id d)
    | suspension_committed suspension checkpoint request ↦
        commit_suspension e suspension checkpoint request now d
    | message_started message ↦ presenting e now (start_message e message now d)
    | message_delta message chunk content ↦ presenting e now (add_delta e message chunk content d)
    | message_completed message metadata reason usage ↦
        presenting e now (complete_message sha256 e message metadata reason usage event_id now d)
    | message_interrupted message ↦
        presenting e now (end_message e message MessageStatus.interrupted now d)
    | message_failed message ↦ presenting e now (end_message e message MessageStatus.failed now d)
    | request_proposed suspension checkpoint prompt schema ↦
        propose_request request_id e suspension checkpoint prompt schema now d
    | unsupported ↦ err event_unsupported
  ]

  -- One transaction; `event_id` is a new one.
  unfoldable pub project : RuntimeEvent → Uuid → Time → Db → Result Problem (Option ℕ × Db)
  project e event_id now d = if elem e.id d.inbox then ok (none, d) else do
    c ← owned e.user_id e.conversation_id d
    raise_if (not (e.thread_id == c.thread_id)) event_invalid
    r ← handle e event_id now d
    ok (r.0, record r.1 { inbox = e.id ∷ r.1.inbox })
