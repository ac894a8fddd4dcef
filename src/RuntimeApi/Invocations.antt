-- ===== src/RuntimeApi/Invocations.antt =====
-- The calls of tools in services/agent-runtime-api/agent_runtime_api/runtime.py: each is executed once.
use porfirium.Prelude.{
  ℕ, ◌≡◌, ◌≢◌, ◌∙◌, ap, refl, inl, inr, Bool, true, Option, none, is_some, List, [], ◌∷◌, Uuid,
  Time, ok, Result-cases, Option-cases, arith, Json, ◌⊎◌,
}
use porfirium.RuntimeApi.State.{
  RunCapability, ToolCall, AgentFrame, Invocation, InvocationState, executing, completed, Db,
  find_invocation,
}
use porfirium.RuntimeApi.Events.{Library}
use porfirium.RuntimeApi.Accept.{activate, accept}
use porfirium.RuntimeApi.Effects.{activate-effect, accept-effect}
use porfirium.RuntimeApi.Tools.{
  ToolExecution, Reservation, execute, check_tool_call, stored_answer, reserve, complete_rows,
  complete_invocation,
}
use porfirium.RuntimeApi.Steps.{
  System, Step, activates, accepts, reserves, completes, Steps, here, next,
}

activate-invocations :
    (c : RunCapability) (now : Time) (d d' : Db) (r : ℕ)
    → activate c now d ≡ ok (r, d')
    → d'.invocations ≡ d.invocations
activate-invocations c now d d' r e = elim (activate-effect c now d d' r e) [
  | inl (last, attempts, frames, invocations, newer) ↦ invocations
  | inr (same, row) ↦ ap (λ (x : Db). x.invocations) same
]

pub InvocationState-cases :
    (i : InvocationState) → (i ≡ executing) ⊎ ((r : Json) × (e : Bool) × (i ≡ completed r e))
InvocationState-cases executing = inl refl
InvocationState-cases (completed r e) = inr (r, e, refl)

module _ (l : Library) where
  accept-invocations :
      (c : RunCapability) (frame : AgentFrame) (id : Uuid) (now : Time) (d d' : Db)
      (r : Option Uuid)
      → accept l c frame id now d ≡ ok (r, d')
      → d'.invocations ≡ d.invocations
  accept-invocations c frame id now d d' r e =
      let (p, given, effect) = accept-effect l c frame id now d d' r e in
      elim effect [
        | inl (row, found, lease, fresh, number, attempts, frames, invocations) ↦ invocations
        | inr (same, old) ↦ ap (λ (x : Db). x.invocations) same
      ]

  -- An invocation that is reserved once.
  reserve-find :
      (gateway : Bool) (c : RunCapability) (call : ToolCall) (d d' : Db) (r : Reservation)
      (run id : Uuid)
      → reserve l gateway c call d ≡ ok (r, d')
      → is_some (find_invocation run id d.invocations) ≡ true
      → is_some (find_invocation run id d'.invocations) ≡ true
  unfolding reserve find_invocation
  reserve-find gateway c call d d' r run id e h =
      elim (Result-cases (check_tool_call l gateway c call)) [
        | inr (p, refused) ↦ ground arith
        | inl (i, passed) ↦ elim (Option-cases (find_invocation c.run_id i d.invocations)) [
          | inl fresh ↦ ground arith
          | inr (old, found) ↦ elim (Result-cases (stored_answer old.state)) [
            | inr (p, refused) ↦ ground arith
            | inl (answer, stored) ↦ ground arith
          ]
        ]
      ]

  complete_rows-find :
      (run k id j : Uuid) (r : ToolExecution) (is : List Invocation)
      → is_some (find_invocation k j (complete_rows run id r is).1)
        ≡ is_some (find_invocation k j is)
  unfolding complete_rows find_invocation
  complete_rows-find run k id j r [] = refl
  complete_rows-find run k id j r (i ∷ is) = ground (arith, complete_rows-find run k id j r is)

  complete-find :
      (c : RunCapability) (i : Uuid) (answer : ToolExecution) (d d' : Db) (r : ToolExecution)
      (run id : Uuid)
      → complete_invocation l c i answer d ≡ ok (r, d')
      → is_some (find_invocation run id d.invocations) ≡ true
      → is_some (find_invocation run id d'.invocations) ≡ true
  unfolding complete_invocation
  complete-find c i answer d d' r run id e h =
      let kept = complete_rows-find c.run_id run i id answer d.invocations in ground arith

  Step-find :
      (s t : System) (run id : Uuid)
      → Step l s t
      → is_some (find_invocation run id s.db.invocations) ≡ true
      → is_some (find_invocation run id t.db.invocations) ≡ true
  Step-find s t run id (activates c now r e opened) h =
      ap (λ x. is_some (find_invocation run id x)) (activate-invocations c now s.db t.db r e) ∙ h
  Step-find s t run id (accepts c frame event now r opened e same) h =
      ap (λ x. is_some (find_invocation run id x))
        (accept-invocations c frame event now s.db t.db r e)
      ∙ h
  Step-find s t run id (reserves gateway c call r opened e same) h =
      reserve-find gateway c call s.db t.db r run id e h
  Step-find s t run id (completes c i answer r e same) h =
      complete-find c i answer s.db t.db r run id e h

  Steps-find :
      (s t : System) (run id : Uuid)
      → Steps l s t
      → is_some (find_invocation run id s.db.invocations) ≡ true
      → is_some (find_invocation run id t.db.invocations) ≡ true
  Steps-find s t run id here h = h
  Steps-find s t run id (next {m = m} earlier step) h =
      Step-find m t run id step (Steps-find s m run id earlier h)

  reserve-passed :
      (gateway : Bool) (c : RunCapability) (call : ToolCall) (d d' : Db) (r : Reservation)
      → reserve l gateway c call d ≡ ok (r, d')
      → (id : Uuid) × (check_tool_call l gateway c call ≡ ok id)
        × (is_some (find_invocation c.run_id id d'.invocations) ≡ true)
        × ((r ≡ execute) → find_invocation c.run_id id d.invocations ≡ none)
  unfolding reserve find_invocation stored_answer
  reserve-passed gateway c call d d' r e = elim (Result-cases (check_tool_call l gateway c call)) [
    | inr (p, refused) ↦ ground arith
    | inl (id, passed) ↦ elim (Option-cases (find_invocation c.run_id id d.invocations)) [
      | inl fresh ↦ (id, passed, ground arith, λ h. fresh)
      | inr (old, found) ↦ elim (InvocationState-cases old.state) [
        | inl busy ↦ ground arith
        | inr (answer, failed, done) ↦ (id, passed, ground arith, λ h. ground arith)
      ]
    ]
  ]

  -- A tool call that was sent to the gateway is never sent again, whatever transactions follow: no later
  -- call of the same run and invocation is told to execute, also from another attempt or with another tool.
  pub reserve_once :
      (gateway gateway' : Bool) (c c' : RunCapability) (call call' : ToolCall) (s m t : System)
      (d' : Db) (id : Uuid) (r : Reservation)
      → reserve l gateway c call s.db ≡ ok (execute, m.db)
      → Steps l m t
      → check_tool_call l gateway c call ≡ ok id
      → check_tool_call l gateway' c' call' ≡ ok id
      → c'.run_id ≡ c.run_id
      → reserve l gateway' c' call' t.db ≡ ok (r, d')
      → r ≢ execute
  reserve_once gateway gateway' c c' call call' s m t d' id r e later checked checked' same again
        executes =
      let (i, passed, there, unused) = reserve-passed gateway c call s.db m.db execute e in
      let (i', passed', there', fresh) = reserve-passed gateway' c' call' t.db d' r again in
      let kept = Steps-find m t c.run_id i later there in let gone = fresh executes in ground arith
