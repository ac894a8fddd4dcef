-- ===== src/RuntimeApi/Failures.antt =====
-- A tool call whose gateway fails (`connect` and `_call_tool` of
-- services/agent-runtime-api/agent_runtime_api/runtime.py).
use porfirium.Prelude.{
  ◌≡◌, refl, ◌∙◌, Bool, false, some, [], ◌∷◌, Uuid, Time, ltb, ok, err, arith, ==_refl,
  Option-cases, inl, inr,
}
use porfirium.RuntimeApi.State.{
  Error, tool_outcome_ambiguous, tool_call, ToolCall, AgentFrame, RunCapability, Db,
  find_invocation,
}
use porfirium.RuntimeApi.Events.{Library}
use porfirium.RuntimeApi.Tools.{execute, check_tool_call, reserve, stored_answer}
use porfirium.RuntimeApi.Invocations.{InvocationState-cases}
use porfirium.RuntimeApi.Connect.{
  connected, refused, Outside, is_raised, ends_stream, after_invoke, after_reserve, call_tool,
  call_gateways, after_calls, in_session, check_frame, connected_round, round, max_frame_bytes,
}

module _ (l : Library) (o : Outside) where
  -- The same call, once it is reserved.
  reserve_again :
      (gateway : Bool) (c : RunCapability) (call : ToolCall) (uid : Uuid) (d d' : Db)
      → check_tool_call l gateway c call ≡ ok uid
      → reserve l gateway c call d ≡ ok (execute, d')
      → reserve l gateway c call d' ≡ err tool_outcome_ambiguous
  unfolding reserve stored_answer find_invocation
  reserve_again gateway c call uid d d' checked e =
      elim (Option-cases (find_invocation c.run_id uid d.invocations)) [
        | inl fresh ↦ ground (arith, ==_refl (l.tool_digest call.tool call.arguments))
        | inr (old, found) ↦ elim (InvocationState-cases old.state) [
          | inl busy ↦ absurd (ground arith)
          | inr (answer, failed, done) ↦ absurd (ground arith)
        ]
      ]

  -- A round with a tool call that passes the guards of the frame.
  tool_round :
      (c : RunCapability) (frame : AgentFrame) (call : ToolCall) (id uid : Uuid) (now : Time)
      (d : Db)
      → ltb max_frame_bytes (o.byte_size frame) ≡ false
      → check_frame l o c frame ≡ ok tt
      → frame.payload ≡ some (tool_call call)
      → check_tool_call l o.has_tool_gateway c call ≡ ok uid
      → round l o (connected c) frame id now d
        ≡ after_calls l o c frame id now
            (after_reserve l o c call uid d (reserve l o.has_tool_gateway c call d))
  unfolding round in_session connected_round call_gateways call_tool
  tool_round c frame call id uid now d fits passed is checked = rw (fits, passed, is, checked) refl

  -- Where the gateway raises an error that `connect` catches and that does not end the stream, after the call was
  -- reserved: the frame is refused with the code of the error and the session goes on, its invocation reserved. When the
  -- same frame is sent again at any time, it is refused as one whose outcome is ambiguous, and nothing changes.
  pub gateway_failure_goes_on :
      (c : RunCapability) (frame : AgentFrame) (call : ToolCall) (id id' uid : Uuid)
      (now now' : Time) (d d' : Db) (e : Error)
      → ltb max_frame_bytes (o.byte_size frame) ≡ false
      → check_frame l o c frame ≡ ok tt
      → frame.payload ≡ some (tool_call call)
      → check_tool_call l o.has_tool_gateway c call ≡ ok uid
      → reserve l o.has_tool_gateway c call d ≡ ok (execute, d')
      → o.invoke call ≡ err e
      → is_raised e ≡ false
      → ends_stream e ≡ false
      → (round l o (connected c) frame id now d ≡ ((connected c, refused e ∷ []), d'))
        × (round l o (connected c) frame id' now' d'
            ≡ ((connected c, refused tool_outcome_ambiguous ∷ []), d'))
  unfolding after_calls after_reserve after_invoke
  gateway_failure_goes_on c frame call id id' uid now now' d d' e fits passed is checked reserved
        fails caught goes =
      (
        tool_round c frame call id uid now d fits passed is checked
            ∙ rw (reserved, fails, caught, goes) refl,
        tool_round c frame call id' uid now' d' fits passed is checked
            ∙ rw (reserve_again o.has_tool_gateway c call uid d d' checked reserved) refl,
      )
