-- ===== src/RuntimeApi/Effects.antt =====
-- What `_activate` and `_accept` of services/agent-runtime-api/agent_runtime_api/runtime.py change.
use porfirium.Prelude.{
  ℕ, ◌+◌, ◌≡◌, ◌⊎◌, inl, inr, Bool, true, Option, none, some, ◌∷◌, Uuid, Time, ltb, lookup, put, ok,
  Result-cases, Option-cases, Bool-cases, arith,
}
use porfirium.RuntimeApi.State.{
  RunCapability, FrameIdentity, AgentFrame, Attempt, Payload, AcceptedFrame, Db, ToolCall,
  find_frame, find_invocation,
}
use porfirium.RuntimeApi.Events.{Library}
use porfirium.RuntimeApi.Tools.{
  ToolExecution, Reservation, check_tool_call, stored_answer, reserve, complete_invocation,
}
use porfirium.RuntimeApi.Accept.{
  attempt_of, activate, take_over, beat, frame_of, accept, accept_payload, accept_new,
  check_payload, store_event,
}

-- The connection takes the run over, as there is no row of it or one of an older lease.
abbrev pub TakesOver : RunCapability → Time → Db → Db → Type 0
TakesOver c now d d' =
    (last : Option Time) × (d'.attempts ≡ put c.run_id (attempt_of c now last) d.attempts)
    × (d'.frames ≡ d.frames)
    × (d'.invocations ≡ d.invocations)
    × ((lookup c.run_id d.attempts ≡ none)
        ⊎ ((row : Attempt) × (lookup c.run_id d.attempts ≡ some row)
            × (ltb row.lease_epoch c.lease_epoch ≡ true)))

-- The connection goes on with the lease that it has.
abbrev pub GoesOn : RunCapability → Db → Db → Type 0
GoesOn c d d' =
    (d' ≡ d)
    × ((row : Attempt) × (lookup c.run_id d.attempts ≡ some row)
        × (row.lease_epoch ≡ c.lease_epoch)
        × (row.attempt_id ≡ c.attempt_id))

pub activate-effect :
    (c : RunCapability) (now : Time) (d d' : Db) (r : ℕ)
    → activate c now d ≡ ok (r, d')
    → TakesOver c now d d' ⊎ GoesOn c d d'
unfolding activate take_over
activate-effect c now d d' r e = elim (Option-cases (lookup c.run_id d.attempts)) [
  | inl absent ↦ inl (none, ground arith, ground arith, ground arith, inl absent)
  | inr (row, found) ↦ elim (Bool-cases (ltb row.lease_epoch c.lease_epoch)) [
    | inl newer ↦
        inl
          (row.last_heartbeat_at, ground arith, ground arith, ground arith, inr (row, found, newer))
    | inr same ↦ inr (ground arith, (row, found, ground arith, ground arith))
  ]
]

-- A frame that is new to its attempt is stored behind the last one.
abbrev pub Stores : RunCapability → FrameIdentity → Payload → Time → Option Uuid → Db → Db → Type 0
Stores c identity p now r d d' =
    (row : Attempt) × (lookup c.run_id d.attempts ≡ some row)
    × (row.lease_epoch ≡ c.lease_epoch)
    × (find_frame c.run_id c.attempt_id c.lease_epoch identity.idempotency_key d.frames ≡ none)
    × (identity.sequence ≡ row.last_sequence + 1)
    × (d'.attempts
        ≡ put c.run_id
            (record row {
              last_sequence = identity.sequence;
              last_heartbeat_at = beat p now row.last_heartbeat_at;
              updated_at = now;
            })
            d.attempts)
    × (d'.frames ≡ frame_of c identity p r ∷ d.frames)
    × (d'.invocations ≡ d.invocations)

-- A frame that was accepted before is answered again.
abbrev pub Answers : RunCapability → FrameIdentity → Option Uuid → Db → Db → Type 0
Answers c identity r d d' =
    (d' ≡ d)
    × ((old : AcceptedFrame) × (find_frame c.run_id c.attempt_id c.lease_epoch
            identity.idempotency_key d.frames
          ≡ some old)
        × (old.sequence ≡ identity.sequence)
        × (r ≡ old.durable_event_id))

module _ (l : Library) where
  accept_new-effect :
      (c : RunCapability) (identity : FrameIdentity) (p : Payload) (row : Attempt) (id : Uuid)
      (now : Time) (d d' : Db) (r : Option Uuid)
      → lookup c.run_id d.attempts ≡ some row
      → row.lease_epoch ≡ c.lease_epoch
      → find_frame c.run_id c.attempt_id c.lease_epoch identity.idempotency_key d.frames ≡ none
      → accept_new l c identity p row id now d ≡ ok (r, d')
      → Stores c identity p now r d d'
  unfolding accept_new
  accept_new-effect c identity p row id now d d' r found lease fresh e =
      elim (Result-cases (check_payload l p)) [
        | inr (problem, refused) ↦ ground arith
        | inl (u, passed) ↦ elim (Result-cases (store_event l c identity p id now d.outbox)) [
          | inr (problem, refused) ↦ ground arith
          | inl ((event_id, outbox), stored) ↦
              (row, found, lease, fresh, ground arith, ground arith, ground arith, ground arith)
        ]
      ]

  accept_payload-effect :
      (c : RunCapability) (identity : FrameIdentity) (p : Payload) (id : Uuid) (now : Time)
      (d d' : Db) (r : Option Uuid)
      → accept_payload l c identity p id now d ≡ ok (r, d')
      → Stores c identity p now r d d' ⊎ Answers c identity r d d'
  unfolding accept_payload
  accept_payload-effect c identity p id now d d' r e =
      elim (Option-cases (lookup c.run_id d.attempts)) [
        | inl absent ↦ ground arith
        | inr (row, found) ↦
            elim (Option-cases
              (find_frame c.run_id c.attempt_id c.lease_epoch identity.idempotency_key d.frames)) [
                | inl fresh ↦ inl (
                    accept_new-effect c identity p row id now d d' r found (ground arith) fresh
                      (ground arith))
                | inr (old, again) ↦ inr (ground arith, (old, again, ground arith, ground arith))
              ]
      ]

  pub accept-effect :
      (c : RunCapability) (frame : AgentFrame) (id : Uuid) (now : Time) (d d' : Db)
      (r : Option Uuid)
      → accept l c frame id now d ≡ ok (r, d')
      → (p : Payload) × (frame.payload ≡ some p)
        × (Stores c frame.identity p now r d d' ⊎ Answers c frame.identity r d d')
  unfolding accept
  accept-effect c frame id now d d' r e = elim (Option-cases frame.payload) [
    | inl absent ↦ ground arith
    | inr (p, given) ↦
        (p, given, accept_payload-effect c frame.identity p id now d d' r (ground arith))
  ]

  -- The calls of tools leave attempts and frames alone.
  pub reserve-keeps :
      (gateway : Bool) (c : RunCapability) (call : ToolCall) (d d' : Db) (r : Reservation)
      → reserve l gateway c call d ≡ ok (r, d')
      → (d'.attempts ≡ d.attempts) × (d'.frames ≡ d.frames)
  unfolding reserve
  reserve-keeps gateway c call d d' r e = elim (Result-cases (check_tool_call l gateway c call)) [
    | inr (p, refused) ↦ ground arith
    | inl (i, passed) ↦ elim (Option-cases (find_invocation c.run_id i d.invocations)) [
      | inl fresh ↦ (ground arith, ground arith)
      | inr (old, found) ↦ elim (Result-cases (stored_answer old.state)) [
        | inr (p, refused) ↦ ground arith
        | inl (answer, stored) ↦ (ground arith, ground arith)
      ]
    ]
  ]

  pub complete_invocation-keeps :
      (c : RunCapability) (id : Uuid) (answer : ToolExecution) (d d' : Db) (r : ToolExecution)
      → complete_invocation l c id answer d ≡ ok (r, d')
      → (d'.attempts ≡ d.attempts) × (d'.frames ≡ d.frames)
  unfolding complete_invocation
  complete_invocation-keeps c id answer d d' r e = (ground arith, ground arith)
