-- ===== src/RuntimeApi/Steps.antt =====
-- The transactions of services/agent-runtime-api/agent_runtime_api/runtime.py, in any order. A connection is
-- open for a capability once `_activate` accepted it, and only open ones send frames.
use porfirium.Prelude.{ℕ, ◌≡◌, Bool, Option, List, [], ◌∷◌, ◌⊎◌, Uuid, Time, ok}
use porfirium.RuntimeApi.State.{AgentFrame, RunCapability, ToolCall, Db}
use porfirium.RuntimeApi.Events.{Library}
use porfirium.RuntimeApi.Accept.{activate, accept}
use porfirium.RuntimeApi.Tools.{ToolExecution, Reservation, reserve, complete_invocation}

pub record System : Type 0 where
  pub sessions : List RunCapability
  pub db : Db

-- Membership of an open connection.
abbrev pub IsOpen : RunCapability → List RunCapability → Type 0
IsOpen c [] = ⊥
IsOpen c (x ∷ xs) = (c ≡ x) ⊎ IsOpen c xs

-- One committed transaction.
pub data Step (l : Library) (s t : System) : Type 0 where
  activates :
      (c : RunCapability) (now : Time) (resume : ℕ)
      → activate c now s.db ≡ ok (resume, t.db)
      → t.sessions ≡ c ∷ s.sessions
      → Step l s t
  accepts :
      (c : RunCapability) (frame : AgentFrame) (id : Uuid) (now : Time) (r : Option Uuid)
      → IsOpen c s.sessions
      → accept l c frame id now s.db ≡ ok (r, t.db)
      → t.sessions ≡ s.sessions
      → Step l s t
  reserves :
      (gateway : Bool) (c : RunCapability) (call : ToolCall) (r : Reservation)
      → IsOpen c s.sessions
      → reserve l gateway c call s.db ≡ ok (r, t.db)
      → t.sessions ≡ s.sessions
      → Step l s t
  completes :
      (c : RunCapability) (id : Uuid) (answer r : ToolExecution)
      → complete_invocation l c id answer s.db ≡ ok (r, t.db)
      → t.sessions ≡ s.sessions
      → Step l s t

-- Any number of transactions.
pub data Steps (l : Library) (s : System) : System → Type 0 where
  here : Steps l s s
  next : {m t : System} → Steps l s m → Step l m t → Steps l s t
