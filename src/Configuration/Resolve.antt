-- ===== src/Configuration/Resolve.antt =====
-- The handlers of services/configuration-service/configuration_service/main.py. JSON Schema, SHA-256
-- of canonical JSON, uuid5 and the database driver are parameters.
use porfirium.Prelude.{
  ℕ, Bool, ◌||◌, not, Option, none, some, List, [], ◌∷◌, ◌++◌, Uuid, Digest, Key, Time, ◌==◌,
  Result, ok, err, ◌>>=◌, ◌>>◌, raise_if, Json, Fields, obj, end,
}
use porfirium.Configuration.Documents.{
  Problem, schema_digest_mismatch, schema_invalid, configuration_schema_violation,
  revision_incompatible, revision_schema_changed, internal_error, validate_bounded, merge_layers,
}
use porfirium.Configuration.Revisions.{
  Scope, user, conversation, RevisionRecord, NewRevision, Db, same_scope, get_revision,
  create_revision,
}

-- What the service calls: the length of the canonical JSON of a value and its SHA-256, whether a
-- schema is one, whether it accepts a value, the digest of a result and its uuid5, and what the driver of the
-- database gives for a `jsonb`.
pub record Library : Type 0 where
  pub encoded_bytes : Json → ℕ
  pub content_digest : Json → Digest
  pub check_schema : Json → Bool
  pub accepts : Json → Fields → Bool
  pub effective_digest : Digest → Fields → Fields → List Uuid → Digest
  pub effective_id : Digest → Uuid
  pub read_jsonb : Fields → Json

pub record ResolveConfiguration : Type 0 where
  pub release_id : Uuid
  pub schema : Json
  pub schema_digest : Digest
  pub release_defaults : Fields
  pub user_revision_id : Option Uuid
  pub conversation_revision_id : Option Uuid

pub record EffectiveConfiguration : Type 0 where
  pub effective_revision_id : Uuid
  pub schema_digest : Digest
  pub values : Fields
  pub secret_references : Fields
  pub content_sha256 : Digest

-- The lists that the loop of `resolve` fills.
pub record Layers : Type 0 where
  pub layers : List Json
  pub secrets : List Json
  pub revision_ids : List Uuid

-- The response `Revision`.
pub record RevisionResponse : Type 0 where
  pub revision_id : Uuid
  pub release_id : Uuid
  pub scope : Scope
  pub conversation_id : Option Uuid
  pub schema_digest : Digest
  pub values : Fields
  pub secret_references : Fields
  pub created_at : Time

-- A value that has to be a mapping: a field of the response that pydantic validates, or a layer whose `items` are
-- asked for. Anything else raises.
unfoldable pub mapping_of : Json → Result Problem Fields
mapping_of (obj fs) = ok fs
mapping_of _ = err internal_error

unfoldable pub revision_response : RevisionRecord → Result Problem RevisionResponse
revision_response r = do
  values ← mapping_of r.values
  secrets ← mapping_of r.secret_references
  ok (record {
    revision_id = r.revision_id;
    release_id = r.release_id;
    scope = r.scope;
    conversation_id = r.conversation_id;
    schema_digest = r.schema_digest;
    values = values;
    secret_references = secrets;
    created_at = r.created_at;
  })

-- The answer after the transaction of `create_revision`, and the database.
unfoldable pub respond :
    Db → Result Problem (RevisionRecord × Db) → Result Problem RevisionResponse × Db
respond d (err e) = (err e, d)
respond d (ok (r, m)) = (revision_response r, m)

-- The mappings that `merge_layers` is called with.
unfoldable pub mappings_of : List Json → Result Problem (List Fields)
mappings_of [] = ok []
mappings_of (layer ∷ layers) = do fs ← mapping_of layer; rest ← mappings_of layers; ok (fs ∷ rest)

module _ (l : Library) where
  unfoldable pub check_bodies : NewRevision → Result Problem (Unit {0})
  check_bodies p = do
    validate_bounded l.encoded_bytes (obj p.values)
    validate_bounded l.encoded_bytes (obj p.secret_references)

  -- `revision_create`: the answer, and the database, which keeps what the transaction committed.
  unfoldable pub revision_create :
      (NewRevision → Digest)
      → Key
      → NewRevision
      → Uuid
      → Time
      → Db
      → Result Problem RevisionResponse × Db
  revision_create digest key p id now d = elim (check_bodies p) [
    | err e ↦ (err e, d)
    | ok u ↦ respond d (create_revision l.read_jsonb digest key p id now d)
  ]

  -- `revision_get`
  unfoldable pub revision_get : Uuid → Uuid → Db → Result Problem RevisionResponse
  revision_get owner id d = do r ← get_revision l.read_jsonb owner id d; revision_response r

  unfoldable pub verify_schema_digest : Json → Digest → Result Problem (Unit {0})
  verify_schema_digest schema expected = do
    raise_if (not (l.content_digest schema == expected)) schema_digest_mismatch
    raise_if (not (l.check_schema schema)) schema_invalid

  -- One round of the loop: the revision of this scope, where the body names one.
  unfoldable pub add_layer :
      ResolveConfiguration → Uuid → Option Uuid → Scope → Db → Layers → Result Problem Layers
  add_layer body owner none scope d s = ok s
  add_layer body owner (some id) scope d s = do
    r ← get_revision l.read_jsonb owner id d
    raise_if (not (r.release_id == body.release_id) || not (same_scope r.scope scope))
        revision_incompatible
    raise_if (not (r.schema_digest == body.schema_digest)) revision_schema_changed
    ok (record {
      layers = s.layers ++ r.values ∷ [];
      secrets = s.secrets ++ r.secret_references ∷ [];
      revision_ids = s.revision_ids ++ id ∷ [];
    })

  unfoldable pub effective :
      ResolveConfiguration → Fields → Fields → List Uuid → EffectiveConfiguration
  effective body values secrets ids =
      let digest = l.effective_digest body.schema_digest values secrets ids in
      record {
        effective_revision_id = l.effective_id digest;
        schema_digest = body.schema_digest;
        values = values;
        secret_references = secrets;
        content_sha256 = digest;
      }

  -- The lists before the loop.
  abbrev pub first_layers : ResolveConfiguration → Layers
  first_layers body = record {
    layers = obj body.release_defaults ∷ [];
    secrets = obj end ∷ [];
    revision_ids = [];
  }

  -- `resolve`
  unfoldable pub resolve : ResolveConfiguration → Uuid → Db → Result Problem EffectiveConfiguration
  unfolding effective
  resolve body owner d = do
    verify_schema_digest body.schema body.schema_digest
    validate_bounded l.encoded_bytes (obj body.release_defaults)
    s ← add_layer body owner body.user_revision_id user d (first_layers body)
    t ← add_layer body owner body.conversation_revision_id conversation d s
    layers ← mappings_of t.layers
    secrets ← mappings_of t.secrets
    let values = merge_layers layers
    raise_if (not (l.accepts body.schema values)) configuration_schema_violation
    ok (effective body values (merge_layers secrets) t.revision_ids)
