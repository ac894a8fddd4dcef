-- ===== src/Configuration/Revisions.antt =====
-- services/configuration-service/configuration_service/store.py over the tables of migrations/*.sql.
-- Each call is one transaction; a new id is an argument. `digest` is SHA-256 of the canonical JSON of
-- a request.
use porfirium.Prelude.{
  Bool, true, false, ◌&&◌, not, Option, none, some, List, ◌∷◌, Uuid, Digest, Key, Time, ◌==◌,
  is_some, find, Table, lookup, put, Result, ok, ◌>>=◌, ◌>>◌, raise_if, or_raise, Json, Fields,
}
use porfirium.Configuration.Documents.{
  Problem, idempotency_conflict, revision_not_found, integrity_violation,
}

pub data Scope : Type 0 where
  user conversation : Scope

-- A row of `configuration_revisions` behind its `revision_id`.
pub record Revision : Type 0 where
  pub owner_id : Uuid
  pub release_id : Uuid
  pub scope : Scope
  pub conversation_id : Option Uuid
  pub schema_digest : Digest
  pub values : Fields
  pub secret_references : Fields
  pub created_at : Time

-- `RevisionRecord`, with its two documents as the database driver gives them back.
pub record RevisionRecord : Type 0 where
  pub revision_id : Uuid
  pub owner_id : Uuid
  pub release_id : Uuid
  pub scope : Scope
  pub conversation_id : Option Uuid
  pub schema_digest : Digest
  pub values : Json
  pub secret_references : Json
  pub created_at : Time

-- The arguments of `create_revision`.
pub record NewRevision : Type 0 where
  pub owner_id : Uuid
  pub release_id : Uuid
  pub scope : Scope
  pub conversation_id : Option Uuid
  pub schema_digest : Digest
  pub values : Fields
  pub secret_references : Fields

-- A row of `configuration_idempotency`.
pub record Request : Type 0 where
  pub owner_id : Uuid
  pub idempotency_key : Key
  pub request_sha256 : Digest
  pub revision_id : Uuid

pub record Db : Type 0 where
  pub revisions : Table Revision
  pub requests : List Request

abbrev pub same_scope : Scope → Scope → Bool
same_scope user user = true
same_scope conversation conversation = true
same_scope _ _ = false

unfoldable pub find_request : Uuid → Key → List Request → Option Request
find_request owner key = find λ r. r.owner_id == owner && r.idempotency_key == key

unfoldable pub revision_of : NewRevision → Time → Revision
revision_of p now = record {
  owner_id = p.owner_id;
  release_id = p.release_id;
  scope = p.scope;
  conversation_id = p.conversation_id;
  schema_digest = p.schema_digest;
  values = p.values;
  secret_references = p.secret_references;
  created_at = now;
}

-- `CHECK ((scope = 'conversation') = (conversation_id IS NOT NULL))`
abbrev pub scope_fits : Scope → Option Uuid → Bool
scope_fits user conversation_id = not (is_some conversation_id)
scope_fits conversation conversation_id = is_some conversation_id

-- `read_jsonb` is the driver: what a value of type `jsonb` is when it is read. `_record` decodes nothing.
module _ (read_jsonb : Fields → Json) where
  -- `_record`
  unfoldable pub record_of : Uuid → Revision → RevisionRecord
  record_of id r = record {
    revision_id = id;
    owner_id = r.owner_id;
    release_id = r.release_id;
    scope = r.scope;
    conversation_id = r.conversation_id;
    schema_digest = r.schema_digest;
    values = read_jsonb r.values;
    secret_references = read_jsonb r.secret_references;
    created_at = r.created_at;
  }

  unfoldable pub get_revision : Uuid → Uuid → Db → Result Problem RevisionRecord
  get_revision owner id d = do
    r ← or_raise (lookup id d.revisions) revision_not_found
    raise_if (not (r.owner_id == owner)) revision_not_found
    ok (record_of id r)

  unfoldable pub create_revision :
      (NewRevision → Digest)
      → Key
      → NewRevision
      → Uuid
      → Time
      → Db
      → Result Problem (RevisionRecord × Db)
  unfolding get_revision
  create_revision digest key p id now d = elim (find_request p.owner_id key d.requests) [
    | some old ↦ do
      raise_if (not (old.request_sha256 == digest p)) idempotency_conflict
      r ← get_revision p.owner_id old.revision_id d
      ok (r, d)
    | none ↦ do
      raise_if (not (scope_fits p.scope p.conversation_id)) integrity_violation
      raise_if (is_some (lookup id d.revisions)) integrity_violation
      ok (
        record_of id (revision_of p now),
        record d {
          revisions = put id (revision_of p now) d.revisions;
          requests =
              record {
                owner_id = p.owner_id;
                idempotency_key = key;
                request_sha256 = digest p;
                revision_id = id;
              }
              ∷ d.requests;
        },
      )
  ]
