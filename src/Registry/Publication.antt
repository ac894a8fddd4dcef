-- ===== src/Registry/Publication.antt =====
-- `publish_release` of services/agent-registry/agent_registry/publication.py, after
-- `validate_publication` has read the manifest and the actor's id was found valid. Columns that are
-- only stored, `image_digest`, `provenance` and `sdk_constraint`, are left out.
use porfirium.Prelude.{
  ℕ, Bool, ◌&&◌, ◌||◌, not, Option, none, some, List, ◌∷◌, Uuid, Digest, Time, ◌==◌, is_some, find,
  if◌then◌else◌, Table, lookup, put, Result, ok, err, ◌>>=◌, ◌>>◌, raise_if, or_raise,
}
use porfirium.Registry.State.{
  Error, Status, Agent, Release, Db, idempotency_key_invalid, idempotency_conflict,
  idempotency_result_unavailable, agent_metadata_conflict, image_already_published,
  release_version_conflict, integrity_violation, publishing, release_published, valid_key,
  find_record,
}

pub record ValidatedRelease : Type 0 where
  pub agent_id : Uuid
  pub version : ℕ
  pub name : ℕ
  pub description : ℕ
  pub image : ℕ
  pub manifest : ℕ
  pub manifest_sha256 : Digest

-- The agent is new, or its metadata is the release's.
unfoldable pub store_agent : ValidatedRelease → Time → Table Agent → Result Error (Table Agent)
store_agent r now agents = elim (lookup r.agent_id agents) [
  | none ↦ ok (
      put r.agent_id
        (record {
          name = r.name;
          description = r.description;
          default_release_id = none;
          updated_at = now;
        })
        agents)
  | some a ↦ do
    raise_if (not (a.name == r.name) || not (a.description == r.description))
        agent_metadata_conflict
    ok agents
]

unfoldable pub conflicts : ValidatedRelease → Release → Bool
conflicts r x = (x.agent_id == r.agent_id && x.version == r.version) || x.image == r.image

-- A row of `releases` that forbids this release.
unfoldable pub find_conflict : ValidatedRelease → Table Release → Option (Uuid × Release)
find_conflict r = find λ row. conflicts r row.1

unfoldable pub release_of : Uuid → ValidatedRelease → Release
release_of actor r = record {
  agent_id = r.agent_id;
  version = r.version;
  image = r.image;
  manifest = r.manifest;
  manifest_sha256 = r.manifest_sha256;
  status = Status.published;
  published_by = actor;
  deprecated_by = none;
  deprecated_at = none;
}

-- `_store_release`
unfoldable pub store_release : ValidatedRelease → Uuid → Uuid → Uuid → Time → Db → Result Error Db
store_release r actor id audit_id now d = do
  agents' ← store_agent r now d.agents
  elim (find_conflict r d.releases) [
    | some row ↦
        err (if row.1.image == r.image then image_already_published else release_version_conflict)
    | none ↦ do
      raise_if (is_some (lookup id d.releases)) integrity_violation
      ok (record d {
        agents = agents';
        releases = put id (release_of actor r) d.releases;
        audit =
            record {
              audit_id = audit_id;
              release_id = id;
              action = release_published;
              actor_id = actor;
            }
            ∷ d.audit;
      })
  ]

-- `id` and `audit_id` are new; `digest` is that of the request.
unfoldable pub publish_release :
    Uuid
    → List ℕ
    → ValidatedRelease
    → Digest
    → Uuid
    → Uuid
    → Time
    → Db
    → Result Error ((Uuid × Release) × Db)
publish_release actor key r digest id audit_id now d = do
  raise_if (not (valid_key key)) idempotency_key_invalid
  elim (find_record actor publishing key d.records) [
    | some old ↦ do
      raise_if (not (old.request_sha256 == digest)) idempotency_conflict
      x ← or_raise (lookup old.result_release_id d.releases) idempotency_result_unavailable
      ok ((old.result_release_id, x), d)
    | none ↦ do
      d' ← store_release r actor id audit_id now d
      ok (
        (id, release_of actor r),
        record d' {
          records =
              record {
                actor_id = actor;
                operation = publishing;
                idempotency_key = key;
                request_sha256 = digest;
                result_release_id = id;
                response_body = none;
              }
              ∷ d'.records;
        },
      )
  ]
