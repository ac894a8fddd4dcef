-- ===== src/RuntimeApi/Tools.antt =====
-- `_call_tool` and the guards of `_call_model` of services/agent-runtime-api/agent_runtime_api/runtime.py.
-- `_call_tool` is two transactions with the call of the gateway between them: `reserve` and
-- `complete_invocation`.
use porfirium.Prelude.{
  Bool, true, false, ◌&&◌, ◌||◌, not, none, some, List, [], ◌∷◌, Uuid, ◌==◌, ltb, length,
  if◌then◌else◌, Result, ok, err, ◌>>=◌, ◌>>◌, raise_if, or_raise, Json, obj, contains,
}
use porfirium.RuntimeApi.State.{
  Error, model_gateway_unavailable, model_forbidden, model_request_invalid, tool_forbidden,
  tool_request_invalid, tool_delegation_unavailable, tool_idempotency_conflict,
  tool_outcome_ambiguous, tool_response_invalid, integrity_violation, ModelCall, ToolCall,
  RunCapability, InvocationState, executing, completed, Invocation, Db, find_invocation,
}
use porfirium.RuntimeApi.Events.{Library}

pub record ToolExecution : Type 0 where
  pub result : Json
  pub is_error : Bool

-- What the first transaction leads to: a stored answer, or a call of the gateway.
pub data Reservation : Type 0 where
  replay : ToolExecution → Reservation
  execute : Reservation

abbrev pub same_invocation : Uuid → Uuid → Invocation → Bool
same_invocation run id i = i.run_id == run && i.invocation_id == id

abbrev pub is_executing : InvocationState → Bool
is_executing executing = true
is_executing (completed r e) = false

-- The stored answer of an earlier call.
unfoldable pub stored_answer : InvocationState → Result Error Reservation
stored_answer executing = err tool_outcome_ambiguous
stored_answer (completed r e) = ok (replay (record { result = r; is_error = e }))

-- The rows that the second transaction updates, and whether it updates one.
unfoldable pub complete_rows :
    Uuid → Uuid → ToolExecution → List Invocation → Bool × List Invocation
complete_rows run id r [] = (false, [])
complete_rows run id r (i ∷ is) =
    let (hit, rest) = complete_rows run id r is in
    if same_invocation run id i && is_executing i.state
    then (true, record i { state = completed r.result r.is_error } ∷ rest)
    else (hit, i ∷ rest)

module _ (l : Library) where
  -- The guards of `_call_model`.
  unfoldable pub check_model_call : Bool → RunCapability → ModelCall → Result Error (Unit {0})
  check_model_call has_gateway cap call = do
    raise_if (not has_gateway) model_gateway_unavailable
    raise_if (not (contains call.model cap.models)) model_forbidden
    raise_if
        (length call.request_id == 0
          || ltb 128 (length call.request_id)
          || length call.prompt == 0
          || ltb 12288 (l.utf8_bytes call.prompt)
          || ltb call.max_output_tokens 1
          || ltb 4096 call.max_output_tokens)
        model_request_invalid

  -- The guards of `_call_tool`, and the id of the invocation.
  unfoldable pub check_tool_call : Bool → RunCapability → ToolCall → Result Error Uuid
  check_tool_call has_gateway cap call = do
    raise_if (not (contains call.tool cap.tools)) tool_forbidden
    id ← or_raise (l.read_uuid call.invocation_id) tool_request_invalid
    raise_if
        (length call.tool == 0
          || ltb 128 (length call.tool)
          || ltb 8192 (l.json_bytes (obj call.arguments)))
        tool_request_invalid
    raise_if (not has_gateway) tool_delegation_unavailable
    ok id

  unfoldable pub reserve : Bool → RunCapability → ToolCall → Db → Result Error (Reservation × Db)
  reserve has_gateway cap call d = do
    id ← check_tool_call has_gateway cap call
    elim (find_invocation cap.run_id id d.invocations) [
      | some old ↦ do
        raise_if (not (old.request_sha256 == l.tool_digest call.tool call.arguments))
            tool_idempotency_conflict
        answer ← stored_answer old.state
        ok (answer, d)
      | none ↦ do
        raise_if (cap.lease_epoch == 0) integrity_violation
        ok (
          execute,
          record d {
            invocations =
                record {
                  run_id = cap.run_id;
                  invocation_id = id;
                  attempt_id = cap.attempt_id;
                  lease_epoch = cap.lease_epoch;
                  request_sha256 = l.tool_digest call.tool call.arguments;
                  state = executing;
                }
                ∷ d.invocations;
          },
        )
    ]

  -- After the gateway answered `r`.
  unfoldable pub complete_invocation :
      RunCapability → Uuid → ToolExecution → Db → Result Error (ToolExecution × Db)
  complete_invocation cap id r d = do
    raise_if (ltb 12288 (l.json_bytes r.result)) tool_response_invalid
    let (hit, rows) = complete_rows cap.run_id id r d.invocations
    raise_if (not hit) tool_outcome_ambiguous
    ok (r, record d { invocations = rows })
