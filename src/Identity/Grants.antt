-- ===== src/Identity/Grants.antt =====
-- services/identity-delegation/identity_delegation/store.py over the tables of migrations/*.sql. Each
-- call is one transaction; a new id is an argument.
use porfirium.Prelude.{
  true, ◌&&◌, not, Option, none, some, List, ◌∷◌, Uuid, Digest, Key, Time, ◌==◌, is_some, is_none,
  find, Table, lookup, put, update_where, Result, ok, ◌>>=◌, ◌>>◌, raise_if, or_raise, Text,
  sort_texts, distinct,
}
use porfirium.Identity.Claims.{Problem, idempotency_conflict, grant_not_found, integrity_violation}

-- A row of `delegation_grants` behind its `grant_id`.
pub record GrantRecord : Type 0 where
  pub user_id : Uuid
  pub conversation_id : Uuid
  pub release_id : Uuid
  pub maximum_scopes : List Text
  pub expires_at : Time
  pub revoked_at : Option Time
  pub created_at : Time

-- The arguments of `create_grant`.
pub record NewGrant : Type 0 where
  pub user_id : Uuid
  pub conversation_id : Uuid
  pub release_id : Uuid
  pub maximum_scopes : List Text
  pub expires_at : Time

-- A row of `delegation_idempotency`; every `operation` is 'create'.
pub record Request : Type 0 where
  pub actor_id : Uuid
  pub idempotency_key : Key
  pub request_sha256 : Digest
  pub grant_id : Uuid

pub record Db : Type 0 where
  pub grants : Table GrantRecord
  pub requests : List Request

unfoldable pub get_grant : Uuid → Db → Result Problem GrantRecord
get_grant id d = or_raise (lookup id d.grants) grant_not_found

unfoldable pub find_request : Uuid → Key → List Request → Option Request
find_request actor key = find λ r. r.actor_id == actor && r.idempotency_key == key

unfoldable pub grant_of : NewGrant → Time → GrantRecord
grant_of p now = record {
  user_id = p.user_id;
  conversation_id = p.conversation_id;
  release_id = p.release_id;
  maximum_scopes = sort_texts (distinct p.maximum_scopes);
  expires_at = p.expires_at;
  revoked_at = none;
  created_at = now;
}

-- `sha256` is SHA-256 of the JSON of the request with its scopes in order.
unfoldable pub digest_of : (NewGrant → Digest) → NewGrant → Digest
digest_of sha256 p = sha256 (record p { maximum_scopes = sort_texts p.maximum_scopes })

unfoldable pub create_grant :
    (NewGrant → Digest)
    → Key
    → NewGrant
    → Uuid
    → Time
    → Db
    → Result Problem ((Uuid × GrantRecord) × Db)
unfolding get_grant
create_grant sha256 key p id now d = elim (find_request p.user_id key d.requests) [
  | some old ↦ do
    raise_if (not (old.request_sha256 == digest_of sha256 p)) idempotency_conflict
    g ← get_grant old.grant_id d
    ok ((old.grant_id, g), d)
  | none ↦ do
    raise_if (is_some (lookup id d.grants)) integrity_violation
    ok (
      (id, grant_of p now),
      record d {
        grants = put id (grant_of p now) d.grants;
        requests =
            record {
              actor_id = p.user_id;
              idempotency_key = key;
              request_sha256 = digest_of sha256 p;
              grant_id = id;
            }
            ∷ d.requests;
      },
    )
]

-- `coalesce(t, now())`
abbrev coalesce : Option Time → Time → Time
coalesce none now = now
coalesce (some t) now = t

abbrev pub revoked : Time → GrantRecord → GrantRecord
revoked now g = record g { revoked_at = some (coalesce g.revoked_at now) }

unfoldable pub revoke_grant : Uuid → Time → Db → Result Problem Db
revoke_grant id now d = do
  raise_if (is_none (lookup id d.grants)) grant_not_found
  ok (record d { grants = update_where id (λ g. true) (revoked now) d.grants })
