-- ===== src/RuntimeApi/Connect.antt =====
-- One round of the loop of `connect` of services/agent-runtime-api/agent_runtime_api/runtime.py, with no other
-- transaction in between. What the gateways answer and what `decode_capability` of auth.py reads are
-- arguments. Their results are JSON, which `ParseDict` takes.
use porfirium.Prelude.{
  ℕ, Bool, true, false, Option, none, some, List, [], ◌∷◌, ◌++◌, Uuid, Time, ltb, if◌then◌else◌,
  Result, ok, err, ◌>>=◌, ◌>>◌, raise_if, Text,
}
use porfirium.RuntimeApi.State.{
  Error, sequence_out_of_order, stale_epoch, identity_mismatch, integrity_violation,
  gateway_exception, Payload, hello, model_call, tool_call, ModelCall, ToolCall, AgentFrame,
  RunCapability, Db,
}
use porfirium.RuntimeApi.Events.{Library, validate_identity}
use porfirium.RuntimeApi.Accept.{activate, accept}
use porfirium.RuntimeApi.Tools.{
  ToolExecution, Reservation, replay, execute, check_model_call, check_tool_call, reserve,
  complete_invocation,
}

pub data Session : Type 0 where
  waiting : Session
  connected : RunCapability → Session
  closed : Session

-- What is sent back, without the limits, the deadline and the run input of the greeting, which come
-- from the capability.
pub data Reply : Type 0 where
  frame_too_large hello_required capability_invalid : Reply
  -- The error of a frame, by its code.
  refused : Error → Reply
  hello_accepted : (resume_after_sequence : ℕ) → Reply
  model_result : Text → Reply
  tool_result : ToolExecution → Reply
  acknowledged : (accepted_sequence : ℕ) (durable_event_id : Option Uuid) → Reply

-- What is outside the round: the size of the frame, the capability that its token denotes, the gateways, which
-- answer or raise: a `ModelGatewayError`, a `ToolGatewayError` (a `ValueError`), or what nothing catches.
pub record Outside : Type 0 where
  pub byte_size : AgentFrame → ℕ
  pub decode_capability : Text → Option RunCapability
  pub has_model_gateway : Bool
  pub has_tool_gateway : Bool
  pub respond : ModelCall → Result Error Text
  pub invoke : ToolCall → Result Error ToolExecution

abbrev pub max_frame_bytes : ℕ
max_frame_bytes = 16384

-- The errors that end the stream.
abbrev pub ends_stream : Error → Bool
ends_stream stale_epoch = true
ends_stream identity_mismatch = true
ends_stream _ = false

-- What is raised out of the loop: an error of the database, or of a gateway where it is no error that
-- `connect` catches.
abbrev pub is_raised : Error → Bool
is_raised integrity_violation = true
is_raised gateway_exception = true
is_raised _ = false

abbrev pub after_error : RunCapability → Error → Session × List Reply
after_error c e =
    if is_raised e
    then (closed, [])
    else (if ends_stream e then closed else connected c, refused e ∷ [])

-- What a round leads to.
abbrev pub Outcome : Type 0
Outcome = (Session × List Reply) × Db

-- What the calls before `_accept` lead to: the results to send, or the error, and the database.
abbrev pub Calls : Type 0
Calls = Result Error (List Reply) × Db

unfoldable pub after_activate : RunCapability → Db → Result Error (ℕ × Db) → Outcome
after_activate c d (err e) = ((closed, if is_raised e then [] else capability_invalid ∷ []), d)
after_activate c d (ok (resume, m)) = ((connected c, hello_accepted resume ∷ []), m)

unfoldable pub after_accept :
    RunCapability → AgentFrame → List Reply → Db → Result Error (Option Uuid × Db) → Outcome
after_accept c frame results d (err e) = (after_error c e, d)
after_accept c frame results d (ok (r, m)) =
    ((connected c, results ++ acknowledged frame.identity.sequence r ∷ []), m)

unfoldable pub after_complete : Db → Result Error (ToolExecution × Db) → Calls
after_complete d (err e) = (err e, d)
after_complete d (ok (r, m)) = (ok (tool_result r ∷ []), m)

unfoldable pub after_identity : RunCapability → Time → Db → Result Error (Unit {0}) → Outcome
after_identity c now d (err e) = ((closed, capability_invalid ∷ []), d)
after_identity c now d (ok u) = after_activate c d (activate c now d)

module _ (l : Library) (o : Outside) where
  unfoldable pub greet : AgentFrame → Time → Db → Option RunCapability → Outcome
  greet frame now d none = ((closed, capability_invalid ∷ []), d)
  greet frame now d (some c) = after_identity c now d (validate_identity l frame.identity c)

  -- The second transaction of `_call_tool`, after the gateway. Where the gateway raises there is none.
  unfoldable pub after_invoke : RunCapability → Uuid → Db → Result Error ToolExecution → Calls
  after_invoke c id d (err e) = (err e, d)
  after_invoke c id d (ok answer) = after_complete d (complete_invocation l c id answer d)

  unfoldable pub after_reserve :
      RunCapability → ToolCall → Uuid → Db → Result Error (Reservation × Db) → Calls
  after_reserve c call id d (err e) = (err e, d)
  after_reserve c call id d (ok (replay r, m)) = (ok (tool_result r ∷ []), m)
  after_reserve c call id d (ok (execute, m)) = after_invoke c id m (o.invoke call)

  -- `_call_tool`, by the id of the invocation where its guards pass.
  unfoldable pub call_tool : RunCapability → ToolCall → Db → Result Error Uuid → Calls
  call_tool c call d (err e) = (err e, d)
  call_tool c call d (ok id) = after_reserve c call id d (reserve l o.has_tool_gateway c call d)

  unfoldable pub call_model : RunCapability → ModelCall → Result Error (List Reply)
  call_model c call = do
    check_model_call l o.has_model_gateway c call
    text ← o.respond call
    ok (model_result text ∷ [])

  -- The calls of a frame before it is accepted.
  unfoldable pub call_gateways : RunCapability → Option Payload → Db → Calls
  call_gateways c (some (model_call call)) d = (call_model c call, d)
  call_gateways c (some (tool_call call)) d =
      call_tool c call d (check_tool_call l o.has_tool_gateway c call)
  call_gateways c _ d = (ok [], d)

  unfoldable pub after_calls : RunCapability → AgentFrame → Uuid → Time → Calls → Outcome
  after_calls c frame id now (err e, m) = (after_error c e, m)
  after_calls c frame id now (ok results, m) =
      after_accept c frame results m (accept l c frame id now m)

  abbrev pub check_frame : RunCapability → AgentFrame → Result Error (Unit {0})
  check_frame c frame = do
    validate_identity l frame.identity c
    raise_if (ltb frame.identity.sequence 1) sequence_out_of_order

  unfoldable pub connected_round :
      RunCapability → AgentFrame → Uuid → Time → Db → Result Error (Unit {0}) → Outcome
  connected_round c frame id now d (err e) = (after_error c e, d)
  connected_round c frame id now d (ok u) =
      after_calls c frame id now (call_gateways c frame.payload d)

  unfoldable pub hello_round : AgentFrame → Option Payload → Time → Db → Outcome
  hello_round frame (some (hello token)) now d = greet frame now d (o.decode_capability token)
  hello_round frame _ now d = ((closed, hello_required ∷ []), d)

  unfoldable pub in_session : Session → AgentFrame → Uuid → Time → Db → Outcome
  in_session waiting frame id now d = hello_round frame frame.payload now d
  in_session (connected c) frame id now d = connected_round c frame id now d (check_frame c frame)
  in_session closed frame id now d = ((closed, []), d)

  -- One frame of the stream: the session and the replies after it, and the database. After a return nothing more
  -- is read.
  unfoldable pub round : Session → AgentFrame → Uuid → Time → Db → Outcome
  round closed frame id now d = ((closed, []), d)
  round session frame id now d =
      if ltb max_frame_bytes (o.byte_size frame)
      then ((session, frame_too_large ∷ []), d)
      else in_session session frame id now d
