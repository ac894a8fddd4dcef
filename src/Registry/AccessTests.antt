-- ===== src/Registry/AccessTests.antt =====
-- Runs of the access grants and the run specifications of the Agent Registry on concrete inputs.
use porfirium.Prelude.{
  ℕ, ◌≡◌, ◌⊎◌, refl, true, none, some, List, [], ◌∷◌, Table, lookup, put, Result, ok, err, holds,
}
use porfirium.Registry.State.{published, Agent, Release, valid_key}
use porfirium.Registry.Access.{
  AccessError, user, run, ServiceIdentity, Grant, GrantRequest, Tables, find_live,
  find_access_record, is_granted, grant_access, revoke_access,
}
use porfirium.Registry.Resolution.{
  ResolutionRequest, Specification, Signer, find_run, authorized_release, specification_of, issue,
  resolve_run_specification,
}
use porfirium.Registry.Authorized.{WasStored, IsIssued, resolve_authorized}
use porfirium.Registry.Replays.{here, revokes, resolve_repeats}

-- What the tests compute with.
runs : ℕ
unfolding lookup put valid_key find_live find_access_record is_granted grant_access revoke_access
    find_run authorized_release specification_of issue resolve_run_specification
runs = 0

abbrev empty : Tables Specification
empty = record { grants = []; grant_audit = []; records = []; specifications = [] }

abbrev agents : Table Agent
agents = (3, record { name = 7; description = 8; default_release_id = none; updated_at = 1 }) ∷ []

abbrev release : Release
release = record {
  agent_id = 3;
  version = 100;
  image = 900;
  manifest = 50;
  manifest_sha256 = 51;
  status = published;
  published_by = 1;
  deprecated_by = none;
  deprecated_at = none;
}

abbrev releases : Table Release
releases = (10, release) ∷ []

abbrev key : List ℕ
key = 65 ∷ 65 ∷ 65 ∷ 65 ∷ 65 ∷ 65 ∷ 65 ∷ 65 ∷ []

abbrev signer : Signer
signer = record {
  sign = λ p. (77, 78);
  key_id = 5;
  ttl = 300;
  request_sha256 = λ q. q.run_id;
  show_uuid = λ u. u;
  read_spec = λ m. some (record { entrypoint = 1; sdk = 2; models = 3; tools = 4; resources = 5 });
}

abbrev identity : ServiceIdentity
identity = record { subject = 99; groups = []; roles = []; delegated_user_id = some 1 }

abbrev wish : GrantRequest
wish = record { agent_id = 3; subject_type = user; subject_id = 1; permission = run }

abbrev request : ResolutionRequest
request = record {
  run_id = 20;
  user_id = 1;
  conversation_id = 2;
  thread_id = 2;
  release_id = 10;
  delegation_grant_id = 30;
  trace_id = 6;
  configuration_revision_id = none;
  starting_checkpoint_id = none;
}

abbrev tables_of :
    {A : Type 0} → Result AccessError (A × Tables Specification) → Tables Specification
tables_of (ok (a, d)) = d
tables_of (err p) = empty

abbrev allowed : Tables Specification
allowed = tables_of (grant_access (λ q. true) agents (λ q. 61) 1 key wish 40 80 empty)

abbrev specification : Specification
specification =
    specification_of signer request release
      (record { entrypoint = 1; sdk = 2; models = 3; tools = 4; resources = 5 }) 60 1000

abbrev resolved : Tables Specification
resolved =
    tables_of (resolve_run_specification signer identity request 99 key 60 1000 releases allowed)

resolved_ok :
    resolve_run_specification signer identity request 99 key 60 1000 releases allowed
    ≡ ok ((60, specification), resolved)
unfolding runs
resolved_ok = refl

abbrev closed : Tables Specification
closed = tables_of (revoke_access (λ id. id) 1 key 40 81 1001 resolved)

abbrev revoked_grant : Grant
revoked_grant = record {
  agent_id = 3;
  subject_type = user;
  subject_id = 1;
  permission = run;
  granted_by = 1;
  revoked_at = some 1001;
}

closed_ok : revoke_access (λ id. id) 1 key 40 81 1001 resolved ≡ ok ((40, revoked_grant), closed)
unfolding runs
closed_ok = refl

resolve_authorized_example :
    (holds (some 1) 1 ≡ true)
    × (WasStored request 60 specification allowed
        ⊎ IsIssued signer identity request 1000 60 specification releases allowed)
resolve_authorized_example =
    resolve_authorized signer identity request 99 key 60 1000 releases allowed resolved 60
      specification resolved_ok

resolve_repeats_example :
    resolve_run_specification signer identity request 99 key 62 1002 [] closed
    ≡ ok ((60, specification), closed)
unfolding runs
resolve_repeats_example =
    resolve_repeats signer identity request 99 key 60 62 1000 1002 releases [] allowed resolved
      closed 60 specification refl resolved_ok
      (revokes (λ id. id) 1 key 40 81 1001 (40, revoked_grant) here closed_ok)
