-- ===== src/RuntimeApi/Events.antt =====
-- `_validate_identity`, `_event` and `_causation_id` of
-- services/agent-runtime-api/agent_runtime_api/runtime.py.
use porfirium.Prelude.{
  ℕ, suc, zero, Bool, true, false, ◌&&◌, ◌||◌, not, Option, none, some, List, [], ◌∷◌, Uuid, Digest,
  Time, ◌==◌, ltb, leb, length, if◌then◌else◌, Result, ok, ◌>>=◌, ◌>>◌, raise_if, or_raise, Text,
  codes, Json, Items, Fields, str, nat, null, arr, nil, cons, end, field, set_field, list_eq,
}
use porfirium.RuntimeApi.State.{
  Error, unsupported_protocol, identity_mismatch, message_too_large, result_proposal_invalid,
  undecodable, malformed_uuid, FrameIdentity, ResultProposed, Payload, message_started,
  message_delta, message_completed, message_interrupted, input_request_proposed,
  suspension_committed, result_proposed, RunCapability, OutboxEvent,
}

abbrev pub max_message_bytes : ℕ
max_message_bytes = 262144

-- What the service calls: UUID and int of a text, the UUID of 32 hex digits and of the SHA-256 of a text,
-- the text of a UUID, UTF-8, SHA-256 in hex, and `MessageToDict` of a payload.
pub record Library : Type 0 where
  pub read_uuid : Text → Option Uuid
  pub show_uuid : Uuid → Text
  pub read_int : Text → Option ℕ
  pub hex_uuid : Text → Uuid
  pub digest_uuid : Text → Uuid
  pub utf8 : Text → Option Text
  pub sha256_hex : Text → Text
  pub message_dict : Payload → Fields
  pub tool_digest : Text → Fields → Digest
  -- The lengths in bytes of a text as UTF-8 and of `json.dumps` of a value.
  pub utf8_bytes : Text → ℕ
  pub json_bytes : Json → ℕ

-- The parts of a text around its first dot.
unfoldable pub split_version : Text → Option (Text × Text)
split_version [] = none
split_version (c ∷ cs) =
    let rest = split_version cs in
    if c == 46 then some ([], cs) else elim rest [ none ↦ none | some (a, b) ↦ some (c ∷ a, b) ]

abbrev is_hex : ℕ → Bool
is_hex c = leb 48 c && leb c 57 || leb 97 c && leb c 102

-- Exactly `n` lower-case hex digits, and the text behind them.
unfoldable pub take_hex : ℕ → Text → Option (Text × Text)
take_hex zero t = some ([], t)
take_hex (suc n) [] = none
take_hex (suc n) (c ∷ cs) =
    let rest = take_hex n cs in
    if is_hex c then elim rest [ none ↦ none | some (a, b) ↦ some (c ∷ a, b) ] else none

unfoldable pub all_zero : Text → Bool
all_zero [] = true
all_zero (c ∷ cs) = c == 48 && all_zero cs

unfoldable pub skip : Text → Text → Option Text
skip [] t = some t
skip (c ∷ cs) [] = none
skip (c ∷ cs) (d ∷ ds) = let rest = skip cs ds in if c == d then rest else none

-- The first group of the match of `traceparent`.
unfoldable pub trace_match : Text → Result Error Text
unfolding skip take_hex all_zero
trace_match t = do
  a ← or_raise (skip (codes "00-") t) identity_mismatch
  (trace, b) ← or_raise (take_hex 32 a) identity_mismatch
  raise_if (all_zero trace) identity_mismatch
  c ← or_raise (skip (codes "-") b) identity_mismatch
  (parent, d) ← or_raise (take_hex 16 c) identity_mismatch
  raise_if (all_zero parent) identity_mismatch
  e ← or_raise (skip (codes "-") d) identity_mismatch
  (flags, rest) ← or_raise (take_hex 2 e) identity_mismatch
  raise_if (not (length rest == 0)) identity_mismatch
  ok trace

-- `EVENTS`: the subject and the type of the events, none for the other payloads.
unfoldable pub event_names : Payload → Option (Text × Text)
event_names (message_started m c) =
    some
      (codes "porfirium.conversation.event.message_started", codes "porfirium.message.started.v1")
event_names (message_delta m n c) =
    some (codes "porfirium.message.delta.accepted", codes "porfirium.message.delta.v1")
event_names (message_completed m) =
    some (
      codes "porfirium.conversation.event.message_completed",
      codes "porfirium.message.completed.v1",
    )
event_names (message_interrupted m c) = some (
  codes "porfirium.conversation.event.message_interrupted",
  codes "porfirium.message.interrupted.v1",
)
event_names (input_request_proposed s c p r) = some (
  codes "porfirium.conversation.event.input_request_proposed",
  codes "porfirium.input.request_proposed.v1",
)
event_names (suspension_committed s c i) = some (
  codes "porfirium.run.event.suspension_committed",
  codes "porfirium.run.suspension_committed.v1",
)
event_names (result_proposed r) =
    some (codes "porfirium.run.event.result_proposed", codes "porfirium.run.result_proposed.v1")
event_names _ = none

-- `data.pop(key, None)`
unfoldable pub pop : Text → Fields → Fields
pop k end = end
pop k (field j v fs) = let rest = pop k fs in if list_eq j k then fs else field j v rest

unfoldable pub uuids_of : (Text → Option Uuid) → List Text → Option (List Uuid)
uuids_of read [] = some []
uuids_of read (t ∷ ts) =
    let rest = uuids_of read ts in
    elim (read t) [ none ↦ none | some u ↦ elim rest [ none ↦ none | some us ↦ some (u ∷ us) ] ]

abbrev is_in : Uuid → List Uuid → Bool
is_in u [] = false
is_in u (v ∷ vs) = v == u || is_in u vs

unfoldable pub has_repeat : List Uuid → Bool
has_repeat [] = false
has_repeat (u ∷ us) = is_in u us || has_repeat us

unfoldable pub texts : (Uuid → Text) → List Uuid → Items
texts show [] = nil
texts show (u ∷ us) = cons (str (show u)) (texts show us)

abbrev append_items : Items → Items → Items
append_items nil ys = ys
append_items (cons x xs) ys = cons x (append_items xs ys)

module _ (l : Library) where
  unfoldable pub validate_identity : FrameIdentity → RunCapability → Result Error (Unit {0})
  unfolding split_version
  validate_identity identity capability = do
    (a, b) ← or_raise (split_version identity.protocol_version) unsupported_protocol
    major ← or_raise (l.read_int a) unsupported_protocol
    minor ← or_raise (l.read_int b) unsupported_protocol
    raise_if (not (major == 1) || not (minor == 0 || minor == 1)) unsupported_protocol
    run ← or_raise (l.read_uuid identity.run_id) malformed_uuid
    raise_if (not (run == capability.run_id)) identity_mismatch
    attempt ← or_raise (l.read_uuid identity.attempt_id) malformed_uuid
    raise_if (not (attempt == capability.attempt_id)) identity_mismatch
    raise_if (not (identity.lease_epoch == capability.lease_epoch)) identity_mismatch
    raise_if (length identity.idempotency_key == 0) identity_mismatch
    raise_if (ltb 128 (length identity.idempotency_key)) identity_mismatch
    trace ← trace_match identity.traceparent
    raise_if (not (list_eq trace capability.trace_id)) identity_mismatch

  -- `_causation_id`
  unfoldable pub causation_id : Text → Uuid
  causation_id key = elim (l.read_uuid key) [ some u ↦ u | none ↦ l.digest_uuid key ]

  -- `str(UUID(t)) if t else None`
  unfoldable pub checkpoint_of : Text → Result Error (Option Uuid)
  checkpoint_of [] = ok none
  checkpoint_of t = do u ← or_raise (l.read_uuid t) result_proposal_invalid; ok (some u)

  abbrev checkpoint_text : Option Uuid → Json
  checkpoint_text none = null
  checkpoint_text (some u) = str (l.show_uuid u)

  abbrev required : List Uuid → Option Uuid → Items
  required ids checkpoint =
      append_items (elim ids [ [] ↦ nil | u ∷ us ↦ cons (str (codes "messages")) nil ])
        (elim checkpoint [ none ↦ nil | some u ↦ cons (str (codes "checkpoint")) nil ])

  unfoldable pub proposal_data : RunCapability → ResultProposed → Result Error Fields
  unfolding uuids_of has_repeat texts
  proposal_data cap p = do
    ids ← or_raise (uuids_of l.read_uuid p.final_message_ids) result_proposal_invalid
    checkpoint ← checkpoint_of p.final_checkpoint_id
    raise_if (ltb 64 (length ids) || has_repeat ids) result_proposal_invalid
    ok (
        field (codes "run_id") (str (l.show_uuid cap.run_id)) (
          field (codes "attempt_id") (str (l.show_uuid cap.attempt_id)) (
            field (codes "lease_epoch") (nat cap.lease_epoch) (
              field (codes "final_message_ids") (arr (texts l.show_uuid ids)) (
                field (codes "final_checkpoint_id") (checkpoint_text checkpoint)
                  (field (codes "required_confirmations") (arr (required ids checkpoint)) end))))))

  unfoldable pub event_data : RunCapability → Payload → Result Error Fields
  unfolding pop
  event_data cap (message_delta m n bytes) = do
    content ← or_raise (l.utf8 bytes) undecodable
    ok (
        pop (codes "content_utf8")
          (set_field (codes "content") (str content) (l.message_dict (message_delta m n bytes))))
  event_data cap (message_completed m) = do
    content ← or_raise (l.utf8 m.canonical_content_utf8) undecodable
    raise_if (ltb max_message_bytes (l.utf8_bytes content)) message_too_large
    ok (
        pop (codes "canonical_content_utf8")
          (set_field (codes "content") (str content) (l.message_dict (message_completed m))))
  event_data cap (result_proposed p) = proposal_data cap p
  event_data cap p = ok (l.message_dict p)

  -- `_event` of a payload with these names.
  unfoldable pub event_of :
      RunCapability → FrameIdentity → Payload → Text × Text → Uuid → Time → Result Error OutboxEvent
  unfolding event_data
  event_of cap identity payload (subject, event_type) id now = do
    content ← event_data cap payload
    ok (record {
      subject = subject;
      envelope = record {
        event_type = event_type;
        event_id = id;
        user_id = cap.user_id;
        conversation_id = cap.conversation_id;
        thread_id = cap.thread_id;
        run_id = cap.run_id;
        attempt_id = cap.attempt_id;
        lease_epoch = cap.lease_epoch;
        correlation_id = l.hex_uuid cap.trace_id;
        causation_id = causation_id identity.idempotency_key;
        traceparent = identity.traceparent;
        time = now;
        aggregate_sequence = identity.sequence;
        content = content;
      };
    })
