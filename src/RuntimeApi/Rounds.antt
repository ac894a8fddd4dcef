-- ===== src/RuntimeApi/Rounds.antt =====
-- A round of `connect` (services/agent-runtime-api/agent_runtime_api/runtime.py) is made of the transactions of Steps.
use porfirium.Prelude.{
  ℕ, ◌≡◌, refl, inl, inr, Option, none, some, List, ◌∷◌, Uuid, Time, ltb, Result, ok, err,
  Bool-cases,
}
use porfirium.RuntimeApi.State.{
  Error, Payload, hello, tool_call, ToolCall, AgentFrame, RunCapability, Db,
}
use porfirium.RuntimeApi.Events.{Library, validate_identity}
use porfirium.RuntimeApi.Accept.{activate, accept}
use porfirium.RuntimeApi.Tools.{
  ToolExecution, Reservation, replay, execute, check_tool_call, reserve, complete_invocation,
}
use porfirium.RuntimeApi.Steps.{
  System, IsOpen, activates, accepts, reserves, completes, Steps, here, next,
}
use porfirium.RuntimeApi.Answers.{Answers, round-Answers}
use porfirium.RuntimeApi.Connect.{
  Session, waiting, connected, closed, Reply, Outside, is_raised, ends_stream, after_error, greet,
  Outcome, Calls, after_activate, after_identity, after_accept, after_complete, after_invoke,
  after_reserve, call_tool, call_gateways, after_calls, hello_round, in_session, check_frame,
  connected_round, round, max_frame_bytes,
}

-- The capability of a connected session is open.
abbrev pub IsLive : Session → List RunCapability → Type 0
IsLive waiting cs = Unit
IsLive (connected c) cs = IsOpen c cs
IsLive closed cs = Unit

-- The system with this database.
abbrev with_db : System → Db → System
with_db s d = record s { db = d }

-- After some steps the database is this one and the session is live.
abbrev pub Reaches : Library → System → Session → Db → Type 0
Reaches l s session d = (t : System) × Steps l s t × (t.db ≡ d) × IsLive session t.sessions

-- The same of an outcome.
abbrev pub Made : Library → System → Outcome → Type 0
Made l s ((session, replies), d) = Reaches l s session d

after_error-Made :
    (l : Library) (c : RunCapability) (e : Error) (s t : System)
    → Steps l s t
    → IsOpen c t.sessions
    → Made l s (after_error c e, t.db)
after_error-Made l c e s t steps opened = elim (Bool-cases (is_raised e)) [
  | inl raised ↦ rw raised (t, steps, refl, tt)
  | inr caught ↦ elim (Bool-cases (ends_stream e)) [
    | inl ends ↦ rw (caught, ends) (t, steps, refl, tt)
    | inr goes ↦ rw (caught, goes) (t, steps, refl, opened)
  ]
]

module _ (l : Library) (o : Outside) where
  after_accept-Made :
      (c : RunCapability) (frame : AgentFrame) (results : List Reply) (id : Uuid) (now : Time)
      (s t : System) (x : Result Error (Option Uuid × Db))
      → Steps l s t
      → IsOpen c t.sessions
      → accept l c frame id now t.db ≡ x
      → Made l s (after_accept c frame results t.db x)
  unfolding after_accept
  after_accept-Made c frame results id now s t (err e) steps opened eq =
      after_error-Made l c e s t steps opened
  after_accept-Made c frame results id now s t (ok (r, m)) steps opened eq =
      (with_db t m, next steps (accepts c frame id now r opened eq refl), refl, opened)

  after_complete-Made :
      (c : RunCapability) (id : Uuid) (answer : ToolExecution) (s : System) (d : Db)
      (x : Result Error (ToolExecution × Db))
      → Steps l s (with_db s d)
      → complete_invocation l c id answer d ≡ x
      → Steps l s (with_db s (after_complete d x).1)
  unfolding after_complete
  after_complete-Made c id answer s d (err e) steps eq = steps
  after_complete-Made c id answer s d (ok (r, m)) steps eq =
      next steps (completes c id answer r eq refl)

  after_invoke-Made :
      (c : RunCapability) (id : Uuid) (s : System) (d : Db) (x : Result Error ToolExecution)
      → Steps l s (with_db s d)
      → Steps l s (with_db s (after_invoke l o c id d x).1)
  unfolding after_invoke
  after_invoke-Made c id s d (err e) steps = steps
  after_invoke-Made c id s d (ok answer) steps =
      after_complete-Made c id answer s d (complete_invocation l c id answer d) steps refl

  after_reserve-Made :
      (c : RunCapability) (call : ToolCall) (id : Uuid) (s : System)
      (x : Result Error (Reservation × Db))
      → IsOpen c s.sessions
      → reserve l o.has_tool_gateway c call s.db ≡ x
      → Steps l s (with_db s (after_reserve l o c call id s.db x).1)
  unfolding after_reserve
  after_reserve-Made c call id s (err e) opened eq = here
  after_reserve-Made c call id s (ok (replay r, m)) opened eq =
      next here (reserves o.has_tool_gateway c call (replay r) opened eq refl)
  after_reserve-Made c call id s (ok (execute, m)) opened eq =
      after_invoke-Made c id s m (o.invoke call)
        (next here (reserves o.has_tool_gateway c call execute opened eq refl))

  call_tool-Made :
      (c : RunCapability) (call : ToolCall) (s : System) (x : Result Error Uuid)
      → IsOpen c s.sessions
      → Steps l s (with_db s (call_tool l o c call s.db x).1)
  unfolding call_tool
  call_tool-Made c call s (err e) opened = here
  call_tool-Made c call s (ok id) opened =
      after_reserve-Made c call id s (reserve l o.has_tool_gateway c call s.db) opened refl

  call_gateways-Made :
      (c : RunCapability) (p : Option Payload) (s : System)
      → IsOpen c s.sessions
      → Steps l s (with_db s (call_gateways l o c p s.db).1)
  unfolding call_gateways
  call_gateways-Made c (some (tool_call call)) s opened =
      call_tool-Made c call s (check_tool_call l o.has_tool_gateway c call) opened
  call_gateways-Made c _ s opened = here

  after_calls-Made :
      (c : RunCapability) (frame : AgentFrame) (id : Uuid) (now : Time) (s : System) (x : Calls)
      → IsOpen c s.sessions
      → Steps l s (with_db s x.1)
      → Made l s (after_calls l o c frame id now x)
  unfolding after_calls
  after_calls-Made c frame id now s (err e, m) opened steps =
      after_error-Made l c e s (with_db s m) steps opened
  after_calls-Made c frame id now s (ok results, m) opened steps =
      after_accept-Made c frame results id now s (with_db s m) (accept l c frame id now m) steps
        opened refl

  connected_round-Made :
      (c : RunCapability) (frame : AgentFrame) (id : Uuid) (now : Time) (s : System)
      (x : Result Error (Unit {0}))
      → IsOpen c s.sessions
      → Made l s (connected_round l o c frame id now s.db x)
  unfolding connected_round
  connected_round-Made c frame id now s (err e) opened = after_error-Made l c e s s here opened
  connected_round-Made c frame id now s (ok u) opened =
      after_calls-Made c frame id now s (call_gateways l o c frame.payload s.db) opened
        (call_gateways-Made c frame.payload s opened)

  after_activate-Made :
      (c : RunCapability) (now : Time) (s : System) (x : Result Error (ℕ × Db))
      → activate c now s.db ≡ x
      → Made l s (after_activate c s.db x)
  unfolding after_activate
  after_activate-Made c now s (err e) eq = (s, here, refl, tt)
  after_activate-Made c now s (ok (resume, m)) eq = (
    record { sessions = c ∷ s.sessions; db = m },
    next here (activates c now resume eq refl),
    refl,
    inl refl,
  )

  after_identity-Made :
      (c : RunCapability) (now : Time) (s : System) (x : Result Error (Unit {0}))
      → Made l s (after_identity c now s.db x)
  unfolding after_identity
  after_identity-Made c now s (err e) = (s, here, refl, tt)
  after_identity-Made c now s (ok u) = after_activate-Made c now s (activate c now s.db) refl

  greet-Made :
      (frame : AgentFrame) (now : Time) (s : System) (x : Option RunCapability)
      → Made l s (greet l o frame now s.db x)
  unfolding greet
  greet-Made frame now s none = (s, here, refl, tt)
  greet-Made frame now s (some c) =
      after_identity-Made c now s (validate_identity l frame.identity c)

  hello_round-Made :
      (frame : AgentFrame) (p : Option Payload) (now : Time) (s : System)
      → Made l s (hello_round l o frame p now s.db)
  unfolding hello_round
  hello_round-Made frame (some (hello token)) now s =
      greet-Made frame now s (o.decode_capability token)
  hello_round-Made frame _ now s = (s, here, refl, tt)

  in_session-Made :
      (session : Session) (frame : AgentFrame) (id : Uuid) (now : Time) (s : System)
      → IsLive session s.sessions
      → Made l s (in_session l o session frame id now s.db)
  unfolding in_session
  in_session-Made waiting frame id now s live = hello_round-Made frame frame.payload now s
  in_session-Made (connected c) frame id now s live =
      connected_round-Made c frame id now s (check_frame l o c frame) live
  in_session-Made closed frame id now s live = (s, here, refl, tt)

  round-reaches :
      (session : Session) (frame : AgentFrame) (id : Uuid) (now : Time) (s : System)
      → IsLive session s.sessions
      → Made l s (round l o session frame id now s.db)
  unfolding round
  round-reaches closed frame id now s live = (s, here, refl, tt)
  round-reaches waiting frame id now s live =
      elim (Bool-cases (ltb max_frame_bytes (o.byte_size frame))) [
        | inl large ↦ rw large (s, here, refl, tt)
        | inr fits ↦ rw fits (in_session-Made waiting frame id now s tt)
      ]
  round-reaches (connected c) frame id now s live =
      elim (Bool-cases (ltb max_frame_bytes (o.byte_size frame))) [
        | inl large ↦ rw large (s, here, refl, live)
        | inr fits ↦ rw fits (in_session-Made (connected c) frame id now s live)
      ]

  -- Each round of a connection is a sequence of the transactions of Steps that leads to the database of the
  -- round, and it sends frames only under a capability that was activated: where the session was connected under an
  -- open capability or not connected, so it is afterwards, whatever the frame and the gateways are. A connected
  -- session stays connected under its capability, and the frame is then too large, refused for an error that does not
  -- end the stream, or acknowledged with its own number after its results; or it ends, with the refusal of a stale epoch
  -- or of a foreign identity, or with no answer. A new session ends but by a greeting that is accepted or a frame
  -- that is too large, and one that ended answers nothing.
  pub round-Made :
      (session : Session) (frame : AgentFrame) (id : Uuid) (now : Time) (s : System)
      → IsLive session s.sessions
      → Made l s (round l o session frame id now s.db)
        × Answers frame session (round l o session frame id now s.db)
  round-Made session frame id now s live =
      (round-reaches session frame id now s live, round-Answers l o session frame id now s.db)
