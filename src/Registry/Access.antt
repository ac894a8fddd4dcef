-- ===== src/Registry/Access.antt =====
-- services/agent-registry/agent_registry/access.py. Each call is one transaction; new ids are arguments.
-- Subjects are texts
-- that are only compared, so numbers stand for them; `valid_request` says whether the agent id and the
-- subject have their form. Two revocations of one subject fall on different instants.
use porfirium.Prelude.{
  ℕ, Bool, true, false, ◌&&◌, ◌||◌, not, Option, none, some, is_some, is_none, List, [], ◌∷◌, Uuid,
  Digest, Time, ◌==◌, list_eq, elem, find, if◌then◌else◌, Table, lookup, put, Result, ok, err,
  ◌>>=◌, ◌>>◌, raise_if, or_raise,
}
use porfirium.Registry.State.{Agent, Release, valid_key}

pub data AccessError : Type 0 where
  grant_invalid idempotency_key_invalid idempotency_conflict idempotency_result_unavailable
        agent_not_found grant_not_found release_not_found user_context_mismatch
        run_specification_conflict stored_release_invalid :
      AccessError
  -- A constraint of the database.
  integrity_violation : AccessError

pub data SubjectType : Type 0 where
  user group role : SubjectType

pub data Permission : Type 0 where
  discover run publish admin : Permission

-- A row of `access_grants` behind its `grant_id`.
pub record Grant : Type 0 where
  pub agent_id : Uuid
  pub subject_type : SubjectType
  pub subject_id : ℕ
  pub permission : Permission
  pub granted_by : Uuid
  pub revoked_at : Option Time

pub data AccessOperation : Type 0 where
  granting revoking resolving : AccessOperation

-- A row of `idempotency_records` of these operations; the result is a grant or a specification.
pub record AccessRecord : Type 0 where
  pub actor_id : Uuid
  pub operation : AccessOperation
  pub idempotency_key : List ℕ
  pub request_sha256 : Digest
  pub result_id : Uuid

-- The arguments of `grant_access` that its digest covers.
pub record GrantRequest : Type 0 where
  pub agent_id : Uuid
  pub subject_type : SubjectType
  pub subject_id : ℕ
  pub permission : Permission

pub record ServiceIdentity : Type 0 where
  pub subject : ℕ
  pub groups : List ℕ
  pub roles : List ℕ
  pub delegated_user_id : Option ℕ

-- The tables that access.py and resolution.py write.
pub record Tables (Specification : Type 0) : Type 0 where
  pub grants : Table Grant
  pub grant_audit : List (Uuid × Bool × Uuid)
  pub records : List AccessRecord
  pub specifications : Table Specification

abbrev pub same_type : SubjectType → SubjectType → Bool
same_type user user = true
same_type group group = true
same_type role role = true
same_type _ _ = false

abbrev pub same_permission : Permission → Permission → Bool
same_permission discover discover = true
same_permission run run = true
same_permission publish publish = true
same_permission admin admin = true
same_permission _ _ = false

abbrev pub same_kind : AccessOperation → AccessOperation → Bool
same_kind granting granting = true
same_kind revoking revoking = true
same_kind resolving resolving = true
same_kind _ _ = false

-- A row that is live and grants what the request asks for.
abbrev pub matches : GrantRequest → Grant → Bool
matches q g =
    g.agent_id == q.agent_id
    && same_type g.subject_type q.subject_type
    && g.subject_id == q.subject_id
    && same_permission g.permission q.permission
    && is_none g.revoked_at

unfoldable pub find_live : GrantRequest → Table Grant → Option (Uuid × Grant)
find_live q [] = none
find_live q ((k, g) ∷ t) = let rest = find_live q t in if matches q g then some (k, g) else rest

unfoldable pub find_access_record :
    Uuid → AccessOperation → List ℕ → List AccessRecord → Option AccessRecord
find_access_record actor op key =
    find λ r. r.actor_id == actor && same_kind r.operation op && list_eq r.idempotency_key key

-- The permissions that let a subject see an agent, and those that let it run one.
abbrev pub may_see : Permission → Bool
may_see publish = false
may_see _ = true

abbrev pub may_run : Permission → Bool
may_run run = true
may_run admin = true
may_run _ = false

-- A live grant of the agent to the user, or to one of the groups or roles.
abbrev pub covers : (Permission → Bool) → Uuid → ℕ → List ℕ → List ℕ → Grant → Bool
covers allowed agent user_id groups roles g =
    g.agent_id == agent && is_none g.revoked_at && allowed g.permission && elim g.subject_type [
      | user ↦ g.subject_id == user_id
      | group ↦ elem g.subject_id groups
      | role ↦ elem g.subject_id roles
    ]

-- `EXISTS (SELECT 1 FROM access_grants ...)`
unfoldable pub is_granted : (Permission → Bool) → Uuid → ℕ → List ℕ → List ℕ → Table Grant → Bool
is_granted allowed agent user_id groups roles [] = false
is_granted allowed agent user_id groups roles ((k, g) ∷ t) =
    covers allowed agent user_id groups roles g || is_granted allowed agent user_id groups roles t

-- `get_visible_release_by_id`
unfoldable pub get_visible_release_by_id :
    ServiceIdentity → Uuid → Table Release → Table Grant → Result AccessError Release
get_visible_release_by_id identity id releases grants = do
  r ← or_raise (lookup id releases) release_not_found
  raise_if
      (not (is_granted may_see r.agent_id identity.subject identity.groups identity.roles grants))
      release_not_found
  ok r

abbrev grant_of : Uuid → GrantRequest → Grant
grant_of actor q = record {
  agent_id = q.agent_id;
  subject_type = q.subject_type;
  subject_id = q.subject_id;
  permission = q.permission;
  granted_by = actor;
  revoked_at = none;
}

abbrev revoked_now : Time → Grant → Grant
revoked_now now g = record g { revoked_at = some now }

module _ {S : Type 0} where
  abbrev pub remember : Uuid → AccessOperation → List ℕ → Digest → Uuid → Tables S → Tables S
  remember actor op key sha id d = record d {
    records =
        record {
          actor_id = actor;
          operation = op;
          idempotency_key = key;
          request_sha256 = sha;
          result_id = id;
        }
        ∷ d.records;
  }

  -- The live grant that is there already, or a new one with its audit row.
  abbrev pub granted :
      Uuid → GrantRequest → Uuid → Uuid → Tables S → Result AccessError ((Uuid × Grant) × Tables S)
  granted actor q id audit_id d = elim (find_live q d.grants) [
    | some (k, g) ↦ ok ((k, g), d)
    | none ↦
        let g = grant_of actor q in
        if is_some (lookup id d.grants)
        then err integrity_violation
        else ok (
          (id, g),
          record d {
            grants = put id g d.grants;
            grant_audit = (audit_id, true, actor) ∷ d.grant_audit;
          },
        )
  ]

  unfoldable pub grant_access :
      (GrantRequest → Bool)
      → Table Agent
      → (GrantRequest → Digest)
      → Uuid
      → List ℕ
      → GrantRequest
      → Uuid
      → Uuid
      → Tables S
      → Result AccessError ((Uuid × Grant) × Tables S)
  grant_access valid_request agents sha256 actor key q id audit_id d = do
    raise_if (not (valid_request q)) grant_invalid
    raise_if (not (valid_key key)) idempotency_key_invalid
    elim (find_access_record actor granting key d.records) [
      | some old ↦ do
        raise_if (not (old.request_sha256 == sha256 q)) idempotency_conflict
        g ← or_raise (lookup old.result_id d.grants) idempotency_result_unavailable
        ok ((old.result_id, g), d)
      | none ↦ do
        raise_if (is_none (lookup q.agent_id agents)) agent_not_found
        ((k, g), m) ← granted actor q id audit_id d
        ok ((k, g), remember actor granting key (sha256 q) k m)
    ]

  -- A live grant is revoked with its audit row, a revoked one left.
  abbrev pub revoked : Uuid → Uuid → Uuid → Time → Grant → Tables S → Grant × Tables S
  revoked actor id audit_id now g d = elim g.revoked_at [
    | some t ↦ (g, d)
    | none ↦ (
      revoked_now now g,
      record d {
        grants = put id (revoked_now now g) d.grants;
        grant_audit = (audit_id, false, actor) ∷ d.grant_audit;
      },
    )
  ]

  unfoldable pub revoke_access :
      (Uuid → Digest)
      → Uuid
      → List ℕ
      → Uuid
      → Uuid
      → Time
      → Tables S
      → Result AccessError ((Uuid × Grant) × Tables S)
  revoke_access sha256 actor key id audit_id now d = do
    raise_if (not (valid_key key)) idempotency_key_invalid
    elim (find_access_record actor revoking key d.records) [
      | some old ↦ do
        raise_if (not (old.request_sha256 == sha256 id)) idempotency_conflict
        g ← or_raise (lookup old.result_id d.grants) idempotency_result_unavailable
        ok ((old.result_id, g), d)
      | none ↦ do
        g ← or_raise (lookup id d.grants) grant_not_found
        let (h, m) = revoked actor id audit_id now g d
        ok ((id, h), remember actor revoking key (sha256 id) id m)
    ]
