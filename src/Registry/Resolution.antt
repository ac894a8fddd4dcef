-- ===== src/Registry/Resolution.antt =====
-- `resolve_run_specification` of services/agent-registry/agent_registry/resolution.py. SHA-256, the signature
-- of a payload and what the manifest says are parameters.
use porfirium.Prelude.{
  ℕ, ◌+◌, Bool, true, ◌&&◌, ◌||◌, not, Option, none, some, is_some, List, [], ◌∷◌, Uuid, Digest,
  Time, ◌==◌, leb, length, holds, if◌then◌else◌, Table, lookup, put, Result, ok, ◌>>=◌, ◌>>◌,
  raise_if, or_raise,
}
use porfirium.Registry.State.{Release, is_published}
use porfirium.Registry.Access.{
  AccessError, user_context_mismatch, idempotency_key_invalid, idempotency_conflict,
  idempotency_result_unavailable, run_specification_conflict, release_not_found,
  stored_release_invalid, integrity_violation, ServiceIdentity, Grant, resolving, Tables,
  find_access_record, may_run, is_granted,
}

pub record ResolutionRequest : Type 0 where
  pub run_id : Uuid
  pub user_id : Uuid
  pub conversation_id : Uuid
  pub thread_id : Uuid
  pub release_id : Uuid
  pub delegation_grant_id : Uuid
  pub trace_id : ℕ
  pub configuration_revision_id : Option Uuid
  pub starting_checkpoint_id : Option Uuid

-- What the manifest of a release says: its `spec`.
pub record Spec : Type 0 where
  pub entrypoint : ℕ
  pub sdk : ℕ
  pub models : ℕ
  pub tools : ℕ
  pub resources : ℕ

pub record Payload : Type 0 where
  pub specification_id : Uuid
  pub request : ResolutionRequest
  pub agent_id : Uuid
  pub version : ℕ
  pub image : ℕ
  pub manifest_sha256 : Digest
  pub spec : Spec
  pub issued_at : Time
  pub expires_at : Time

-- A row of `run_specifications` behind its `specification_id`.
pub record Specification : Type 0 where
  pub run_id : Uuid
  pub release_id : Uuid
  pub user_id : Uuid
  pub request_sha256 : Digest
  pub payload : Payload
  pub payload_sha256 : Digest
  pub signature : ℕ
  pub key_id : ℕ

pub record Signer : Type 0 where
  pub sign : Payload → Digest × ℕ
  pub key_id : ℕ
  pub ttl : ℕ
  pub request_sha256 : ResolutionRequest → Digest
  -- `str` of a UUID, and the `spec` of a manifest, none where it is no dictionary.
  pub show_uuid : Uuid → ℕ
  pub read_spec : ℕ → Option Spec

abbrev all_ascii : List ℕ → Bool
all_ascii [] = true
all_ascii (c ∷ cs) = leb c 127 && all_ascii cs

abbrev pub valid_resolution_key : List ℕ → Bool
valid_resolution_key key = leb 8 (length key) && leb (length key) 128 && all_ascii key

-- `SELECT * FROM run_specifications WHERE run_id = $1`
unfoldable pub find_run : Uuid → Table Specification → Option (Uuid × Specification)
find_run run [] = none
find_run run ((k, s) ∷ t) =
    let rest = find_run run t in if s.run_id == run then some (k, s) else rest

unfoldable pub authorized_release :
    (Uuid → ℕ)
    → ServiceIdentity
    → ResolutionRequest
    → Table Release
    → Table Grant
    → Result AccessError Release
authorized_release show identity q releases grants = do
  r ← or_raise (lookup q.release_id releases) release_not_found
  raise_if
      (not (is_published r.status)
        || not
            (is_granted may_run r.agent_id (show q.user_id) identity.groups identity.roles grants))
      release_not_found
  ok r

abbrev with_record : Uuid → List ℕ → Digest → Uuid → Tables Specification → Tables Specification
with_record actor key sha id d = record d {
  records =
      record {
        actor_id = actor;
        operation = resolving;
        idempotency_key = key;
        request_sha256 = sha;
        result_id = id;
      }
      ∷ d.records;
}

module _ (g : Signer) where
  abbrev payload_of : ResolutionRequest → Release → Spec → Uuid → Time → Payload
  payload_of q r spec id now = record {
    specification_id = id;
    request = q;
    agent_id = r.agent_id;
    version = r.version;
    image = r.image;
    manifest_sha256 = r.manifest_sha256;
    spec = spec;
    issued_at = now;
    expires_at = now + g.ttl;
  }

  unfoldable pub specification_of : ResolutionRequest → Release → Spec → Uuid → Time → Specification
  specification_of q r spec id now =
      let payload = payload_of q r spec id now in
      let (sha, signature) = g.sign payload in
      record {
        run_id = q.run_id;
        release_id = q.release_id;
        user_id = q.user_id;
        request_sha256 = g.request_sha256 q;
        payload = payload;
        payload_sha256 = sha;
        signature = signature;
        key_id = g.key_id;
      }

  -- The part for a run that has no specification yet.
  unfoldable pub issue :
      ServiceIdentity
      → ResolutionRequest
      → Uuid
      → List ℕ
      → Uuid
      → Time
      → Table Release
      → Tables Specification
      → Result AccessError ((Uuid × Specification) × Tables Specification)
  issue identity q actor key id now releases d = do
    r ← authorized_release g.show_uuid identity q releases d.grants
    spec ← or_raise (g.read_spec r.manifest) stored_release_invalid
    raise_if (is_some (lookup id d.specifications)) integrity_violation
    ok (
      (id, specification_of q r spec id now),
      with_record actor key (g.request_sha256 q) id (record d {
        specifications = put id (specification_of q r spec id now) d.specifications;
      }),
    )

  unfoldable pub resolve_run_specification :
      ServiceIdentity
      → ResolutionRequest
      → Uuid
      → List ℕ
      → Uuid
      → Time
      → Table Release
      → Tables Specification
      → Result AccessError ((Uuid × Specification) × Tables Specification)
  resolve_run_specification identity q actor key id now releases d = do
    raise_if (not (holds identity.delegated_user_id (g.show_uuid q.user_id))) user_context_mismatch
    raise_if (not (valid_resolution_key key)) idempotency_key_invalid
    elim (find_access_record actor resolving key d.records) [
      | some old ↦ do
        raise_if (not (old.request_sha256 == g.request_sha256 q)) idempotency_conflict
        s ← or_raise (lookup old.result_id d.specifications) idempotency_result_unavailable
        ok ((old.result_id, s), d)
      | none ↦ elim (find_run q.run_id d.specifications) [
        | some (k, s) ↦ do
          raise_if (not (s.request_sha256 == g.request_sha256 q)) run_specification_conflict
          ok ((k, s), with_record actor key (g.request_sha256 q) k d)
        | none ↦ issue identity q actor key id now releases d
      ]
    ]
