-- ===== src/RuntimeApi/Accept.antt =====
-- `_activate` and `_accept` of services/agent-runtime-api/agent_runtime_api/runtime.py. Each is one
-- transaction that locks the row of the run.
use porfirium.Prelude.{
  ℕ, ◌+◌, Bool, true, false, ◌&&◌, ◌||◌, not, Option, none, some, is_some, ◌∷◌, Uuid, Time, ◌==◌,
  ltb, length, if◌then◌else◌, Table, lookup, put, Result, ok, ◌>>=◌, ◌>>◌, raise_if, or_raise,
  list_eq,
}
use porfirium.RuntimeApi.State.{
  Error, stale_epoch, attempt_mismatch, invalid_frame, idempotency_conflict, sequence_out_of_order,
  invalid_utf8, chunk_size_invalid, completion_hash_invalid, integrity_violation, FrameIdentity,
  Payload, hello, heartbeat, message_delta, message_completed, AgentFrame, RunCapability, Attempt,
  AcceptedFrame, OutboxEvent, Db, find_frame, find_sequence,
}
use porfirium.RuntimeApi.Events.{Library, event_names, event_of}

abbrev pub attempt_of : RunCapability → Time → Option Time → Attempt
attempt_of cap now heartbeat_at = record {
  attempt_id = cap.attempt_id;
  lease_epoch = cap.lease_epoch;
  user_id = cap.user_id;
  conversation_id = cap.conversation_id;
  thread_id = cap.thread_id;
  deadline = cap.deadline;
  last_sequence = 0;
  last_heartbeat_at = heartbeat_at;
  updated_at = now;
}

-- The insertion or the update of the row of the run.
unfoldable pub take_over : RunCapability → Time → Option Time → Db → Result Error (ℕ × Db)
take_over cap now heartbeat_at d = do
  raise_if (cap.lease_epoch == 0) integrity_violation
  ok (0, record d { attempts = put cap.run_id (attempt_of cap now heartbeat_at) d.attempts })

-- A newer lease takes the row over; the same one goes on.
abbrev pub resume : RunCapability → Attempt → Time → Db → Result Error (ℕ × Db)
resume cap row now d =
    if ltb row.lease_epoch cap.lease_epoch
    then take_over cap now row.last_heartbeat_at d
    else ok (row.last_sequence, d)

-- `_activate`: the sequence number after which the attempt resumes.
unfoldable pub activate : RunCapability → Time → Db → Result Error (ℕ × Db)
activate cap now d = elim (lookup cap.run_id d.attempts) [
  | none ↦ take_over cap now none d
  | some row ↦ do
    raise_if (ltb cap.lease_epoch row.lease_epoch) stale_epoch
    raise_if (row.lease_epoch == cap.lease_epoch && not (row.attempt_id == cap.attempt_id))
        attempt_mismatch
    resume cap row now d
]

abbrev pub is_hello : Payload → Bool
is_hello (hello c) = true
is_hello _ = false

abbrev pub beat : Payload → Time → Option Time → Option Time
beat heartbeat now last = some now
beat _ now last = last

abbrev pub frame_of : RunCapability → FrameIdentity → Payload → Option Uuid → AcceptedFrame
frame_of cap identity payload id = record {
  run_id = cap.run_id;
  attempt_id = cap.attempt_id;
  lease_epoch = cap.lease_epoch;
  sequence = identity.sequence;
  idempotency_key = identity.idempotency_key;
  payload = payload;
  durable_event_id = id;
}

module _ (l : Library) where
  unfoldable pub check_payload : Payload → Result Error (Unit {0})
  check_payload (message_delta m n bytes) = do
    content ← or_raise (l.utf8 bytes) invalid_utf8
    raise_if (length content == 0 || ltb 4096 (l.utf8_bytes content)) chunk_size_invalid
  check_payload (message_completed m) =
      raise_if
        (not (length m.canonical_content_utf8 == m.content_bytes)
          || not (list_eq (l.sha256_hex m.canonical_content_utf8) m.content_sha256)
          || ltb 65536 m.chunk_count)
        completion_hash_invalid
  check_payload _ = ok tt

  -- The event of a payload that has one, stored in the outbox under this new id.
  unfoldable pub store_event :
      RunCapability
      → FrameIdentity
      → Payload
      → Uuid
      → Time
      → Table OutboxEvent
      → Result Error (Option Uuid × Table OutboxEvent)
  store_event cap identity payload id now outbox = elim (event_names payload) [
    | none ↦ ok (none, outbox)
    | some names ↦ do
      event ← event_of l cap identity payload names id now
      raise_if (is_some (lookup id outbox)) integrity_violation
      ok (some id, put id event outbox)
  ]

  -- The part of `_accept` for a key that is new to the attempt.
  unfoldable pub accept_new :
      RunCapability
      → FrameIdentity
      → Payload
      → Attempt
      → Uuid
      → Time
      → Db
      → Result Error (Option Uuid × Db)
  accept_new cap identity payload row id now d = do
    raise_if (not (identity.sequence == row.last_sequence + 1)) sequence_out_of_order
    check_payload payload
    (event_id, outbox) ← store_event cap identity payload id now d.outbox
    raise_if
        (is_some
          (find_sequence cap.run_id cap.attempt_id cap.lease_epoch identity.sequence d.frames))
        integrity_violation
    ok (
      event_id,
      record d {
        attempts =
            put cap.run_id
              (record row {
                last_sequence = identity.sequence;
                last_heartbeat_at = beat payload now row.last_heartbeat_at;
                updated_at = now;
              })
              d.attempts;
        frames = frame_of cap identity payload event_id ∷ d.frames;
        outbox = outbox;
      },
    )

  unfoldable pub accept_payload :
      RunCapability → FrameIdentity → Payload → Uuid → Time → Db → Result Error (Option Uuid × Db)
  accept_payload cap identity payload id now d = do
    raise_if (is_hello payload) invalid_frame
    row ← or_raise (lookup cap.run_id d.attempts) stale_epoch
    raise_if (not (row.lease_epoch == cap.lease_epoch)) stale_epoch
    elim (find_frame cap.run_id cap.attempt_id cap.lease_epoch identity.idempotency_key d.frames) [
      | some old ↦ do
        raise_if (not (old.sequence == identity.sequence)) idempotency_conflict
        ok (old.durable_event_id, d)
      | none ↦ accept_new cap identity payload row id now d
    ]

  -- `_accept`: the id of the event that the frame gave rise to, if any.
  unfoldable pub accept :
      RunCapability → AgentFrame → Uuid → Time → Db → Result Error (Option Uuid × Db)
  accept cap frame id now d = do
    payload ← or_raise frame.payload invalid_frame
    accept_payload cap frame.identity payload id now d
