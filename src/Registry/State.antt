-- ===== src/Registry/State.antt =====
-- The tables of services/agent-registry/migrations/*.sql that publication.py and lifecycle.py of
-- services/agent-registry/agent_registry read and write. Agent ids, versions, images and other texts
-- are only compared, so numbers stand for them; an idempotency key is the list of its code points.
use porfirium.Prelude.{
  ℕ, Bool, true, false, ◌&&◌, Option, List, [], ◌∷◌, Uuid, Digest, Time, ◌==◌, leb, list_eq, find,
  length, Table,
}

pub data Error : Type 0 where
  idempotency_key_invalid actor_invalid idempotency_conflict idempotency_result_unavailable
        agent_not_found release_not_found release_deprecated default_release_deprecation_forbidden
        agent_metadata_conflict image_already_published release_version_conflict :
      Error
  -- A constraint of the database, or an exception that no handler expects.
  integrity_violation uncaught : Error

pub data Status : Type 0 where
  published deprecated : Status

-- A row of `agents` behind its `agent_id`.
pub record Agent : Type 0 where
  pub name : ℕ
  pub description : ℕ
  pub default_release_id : Option Uuid
  pub updated_at : Time

-- A row of `releases` behind its `release_id`.
pub record Release : Type 0 where
  pub agent_id : Uuid
  pub version : ℕ
  pub image : ℕ
  pub manifest : ℕ
  pub manifest_sha256 : Digest
  pub status : Status
  pub published_by : Uuid
  pub deprecated_by : Option Uuid
  pub deprecated_at : Option Time

pub data Operation : Type 0 where
  publishing setting_default deprecating : Operation

-- The response of `set_default_release`.
pub record AgentResponse : Type 0 where
  pub agent_id : Uuid
  pub name : ℕ
  pub description : ℕ
  pub default_release_id : Uuid

-- A row of `idempotency_records`.
pub record IdempotencyRecord : Type 0 where
  pub actor_id : Uuid
  pub operation : Operation
  pub idempotency_key : List ℕ
  pub request_sha256 : Digest
  pub result_release_id : Uuid
  pub response_body : Option AgentResponse

pub data Action : Type 0 where
  release_published : Action
  release_retired : Action
  -- with the previous default
  default_release_changed : Option Uuid → Action

pub record Audit : Type 0 where
  pub audit_id : Uuid
  pub release_id : Uuid
  pub action : Action
  pub actor_id : Uuid

-- The newest audit row and idempotency record stand first.
pub record Db : Type 0 where
  pub agents : Table Agent
  pub releases : Table Release
  pub audit : List Audit
  pub records : List IdempotencyRecord

abbrev pub is_published : Status → Bool
is_published published = true
is_published deprecated = false

abbrev pub same_operation : Operation → Operation → Bool
same_operation publishing publishing = true
same_operation setting_default setting_default = true
same_operation deprecating deprecating = true
same_operation _ _ = false

abbrev pub is_printable : List ℕ → Bool
is_printable [] = true
is_printable (c ∷ cs) = leb 32 c && leb c 126 && is_printable cs

-- `_validate_key`: a printable ASCII text of 8 to 128 characters
unfoldable pub valid_key : List ℕ → Bool
valid_key key = leb 8 (length key) && leb (length key) 128 && is_printable key

unfoldable pub find_record :
    Uuid → Operation → List ℕ → List IdempotencyRecord → Option IdempotencyRecord
find_record actor op key =
    find λ r. r.actor_id == actor && same_operation r.operation op && list_eq r.idempotency_key key
