-- ===== src/Registry/Lifecycle.antt =====
-- `set_default_release` and `deprecate_release` of
-- services/agent-registry/agent_registry/lifecycle.py. `is_agent_id` is the match of
-- `AGENT_ID_PATTERN`.
use porfirium.Prelude.{
  ℕ, Bool, true, not, none, some, List, ◌∷◌, Uuid, Digest, Time, ◌==◌, holds, if◌then◌else◌, lookup,
  update_where, Result, ok, ◌>>=◌, ◌>>◌, raise_if, or_raise,
}
use porfirium.Registry.State.{
  Error, Status, Agent, Release, AgentResponse, Db, idempotency_key_invalid, idempotency_conflict,
  idempotency_result_unavailable, agent_not_found, release_not_found, release_deprecated,
  default_release_deprecation_forbidden, uncaught, setting_default, deprecating,
  default_release_changed, release_retired, is_published, valid_key, find_record,
}

abbrev pub any_agent : Agent → Bool
any_agent a = true

unfoldable pub response_of : Uuid → Agent → Uuid → AgentResponse
response_of agent a release = record {
  agent_id = agent;
  name = a.name;
  description = a.description;
  default_release_id = release;
}

-- The update and its audit row, where the default changes.
unfoldable pub change_default : Uuid → Uuid → Agent → Uuid → Uuid → Time → Db → Db
change_default actor agent a release audit_id now d =
    if holds a.default_release_id release then d else record d {
      agents =
          update_where agent any_agent
            (λ a. record a { default_release_id = some release; updated_at = now }) d.agents;
      audit =
          record {
            audit_id = audit_id;
            release_id = release;
            action = default_release_changed a.default_release_id;
            actor_id = actor;
          }
          ∷ d.audit;
    }

unfoldable pub record_default : Uuid → List ℕ → Digest → Uuid → AgentResponse → Db → Db
record_default actor key digest release response d = record d {
  records =
      record {
        actor_id = actor;
        operation = setting_default;
        idempotency_key = key;
        request_sha256 = digest;
        result_release_id = release;
        response_body = some response;
      }
      ∷ d.records;
}

unfoldable pub set_default_release :
    (Uuid → Bool)
    → (Uuid → Uuid → Digest)
    → Uuid
    → List ℕ
    → Uuid
    → Uuid
    → Uuid
    → Time
    → Db
    → Result Error (AgentResponse × Db)
set_default_release is_agent_id digest actor key agent release audit_id now d = do
  raise_if (not (valid_key key)) idempotency_key_invalid
  raise_if (not (is_agent_id agent)) agent_not_found
  elim (find_record actor setting_default key d.records) [
    | some old ↦ do
      raise_if (not (old.request_sha256 == digest agent release)) idempotency_conflict
      response ← or_raise old.response_body idempotency_result_unavailable
      ok (response, d)
    | none ↦ do
      a ← or_raise (lookup agent d.agents) agent_not_found
      x ← or_raise (lookup release d.releases) release_not_found
      raise_if (not (x.agent_id == agent)) release_not_found
      raise_if (not (is_published x.status)) release_deprecated
      ok (
        response_of agent a release,
        record_default actor key (digest agent release) release (response_of agent a release)
            (change_default actor agent a release audit_id now d),
      )
  ]

unfoldable pub retired : Uuid → Time → Release → Release
retired actor now x = record x {
  status = Status.deprecated;
  deprecated_by = some actor;
  deprecated_at = some now;
}

-- The update and its audit row, where the release is not deprecated yet.
unfoldable pub retire : Uuid → Uuid → Release → Uuid → Time → Db → Db
retire actor release x audit_id now d =
    if is_published x.status
    then record d {
      releases = update_where release (λ _. true) (retired actor now) d.releases;
      audit =
          record {
            audit_id = audit_id;
            release_id = release;
            action = release_retired;
            actor_id = actor;
          }
          ∷ d.audit;
    }
    else d

unfoldable pub record_retired : Uuid → List ℕ → Digest → Uuid → Db → Db
record_retired actor key digest release d = record d {
  records =
      record {
        actor_id = actor;
        operation = deprecating;
        idempotency_key = key;
        request_sha256 = digest;
        result_release_id = release;
        response_body = none;
      }
      ∷ d.records;
}

unfoldable pub deprecate_release :
    (Uuid → Digest) → Uuid → List ℕ → Uuid → Uuid → Time → Db → Result Error ((Uuid × Release) × Db)
deprecate_release digest actor key release audit_id now d = do
  raise_if (not (valid_key key)) idempotency_key_invalid
  elim (find_record actor deprecating key d.records) [
    | some old ↦ do
      raise_if (not (old.request_sha256 == digest release)) idempotency_conflict
      x ← or_raise (lookup old.result_release_id d.releases) idempotency_result_unavailable
      ok ((old.result_release_id, x), d)
    | none ↦ do
      x ← or_raise (lookup release d.releases) release_not_found
      a ← or_raise (lookup x.agent_id d.agents) uncaught
      raise_if (holds a.default_release_id release) default_release_deprecation_forbidden
      ok (
        (release, if is_published x.status then retired actor now x else x),
        record_retired actor key (digest release) release (retire actor release x audit_id now d),
      )
  ]
