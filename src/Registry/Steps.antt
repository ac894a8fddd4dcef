-- ===== src/Registry/Steps.antt =====
-- The transactions of services/agent-registry/agent_registry that change agents and releases, in any
-- order.
use porfirium.Prelude.{ℕ, ◌≡◌, Bool, List, Uuid, Digest, Time, ok}
use porfirium.Registry.State.{Release, AgentResponse, Db}
use porfirium.Registry.Publication.{ValidatedRelease, publish_release}
use porfirium.Registry.Lifecycle.{set_default_release, deprecate_release}

-- The match of `AGENT_ID_PATTERN` and SHA-256 of the canonical JSON of a request.
pub record Config : Type 0 where
  pub is_agent_id : Uuid → Bool
  pub default_digest : Uuid → Uuid → Digest
  pub deprecate_digest : Uuid → Digest

-- One committed transaction.
pub data Step (g : Config) (d d' : Db) : Type 0 where
  publishes :
      (actor : Uuid) (key : List ℕ) (v : ValidatedRelease) (digest : Digest) (id audit_id : Uuid)
      (now : Time) (r : Uuid × Release)
      → publish_release actor key v digest id audit_id now d ≡ ok (r, d')
      → Step g d d'
  sets_default :
      (actor : Uuid) (key : List ℕ) (agent release audit_id : Uuid) (now : Time) (r : AgentResponse)
      → set_default_release g.is_agent_id g.default_digest actor key agent release audit_id now d
        ≡ ok (r, d')
      → Step g d d'
  deprecates :
      (actor : Uuid) (key : List ℕ) (release audit_id : Uuid) (now : Time) (r : Uuid × Release)
      → deprecate_release g.deprecate_digest actor key release audit_id now d ≡ ok (r, d')
      → Step g d d'

-- Any number of transactions.
pub data Steps (g : Config) (d : Db) : Db → Type 0 where
  here : Steps g d d
  next : {m d' : Db} → Steps g d m → Step g m d' → Steps g d d'
