-- ===== src/Identity/Tests.antt =====
-- Runs of Identity Delegation on concrete inputs.
use mathlib.Core.Path.{subst}
use porfirium.Prelude.{
  ℕ, ◌+◌, ◌<◌, ◌≤◌, ◌≡◌, ◌∙◌, sym, refl, true, false, Option, none, some, List, [], ◌∷◌, ◌++◌, Uuid,
  Digest, lookup, put, update_where, Result, ok, err, Text, codes, Json, Fields, obj, nat, str,
  bool, arr, nil, cons, end, field, get, contains, all_in, insert_text, sort_texts, distinct,
  insert_field, sort_keys, sort_fields, text_leb, if◌then◌else◌, ◌==◌, arith,
}
use porfirium.Identity.Claims.{
  Problem, idempotency_conflict, is_int, int_of, hashed, members, each_text, texts_of, text_of,
  is_text, truthy,
}
use porfirium.Identity.Tokens.{
  Codec, rstrip, signs, split_dot, decode, encode, issue_token, read_claims, verify_token,
}
use porfirium.Identity.Grants.{
  GrantRecord, NewGrant, Db, get_grant, find_request, grant_of, digest_of, create_grant,
  revoke_grant,
}
use porfirium.Identity.Policy.{RunGrant, tool_scope, authorize_tool}
use porfirium.Identity.Service.{
  Service, CreateGrant, ExchangeGrant, DelegatedToken, five_minutes, after_prefix, bearer, items_of,
  common, grant_create, grant_revoke, signing_secret, uuid_text, run_of, policy_claims, run_grant,
}
use porfirium.Identity.Exchange.{
  mcp_audience, exchange_claims, is_bound, check_tools, delegated_claims, delegate, exchange_token,
  delegated_scopes, tool_authorize,
}
use porfirium.Identity.RoundTrip.{verify_token-issue_token}
use porfirium.Identity.Limits.{exchange_token_limits}
use porfirium.Identity.Revoked.{here, grant_revoke_final}
use porfirium.Identity.Retry.{grant_create_retry}
use porfirium.Identity.Authorized.{exchanged_token_authorizes, tool_authorize_requires}
use porfirium.Identity.SampleCodec.{sample, sample-Base64Laws, tallies, ones, counted}

some_injective : (a b : GrantRecord) → some a ≡ some b → a ≡ b
some_injective a b h = cc

-- What the tests compute with.
runs : ℕ
unfolding lookup put update_where get contains all_in insert_text sort_texts distinct insert_field
    sort_keys sort_fields text_leb is_int int_of hashed members each_text texts_of text_of truthy
    rstrip signs split_dot decode encode issue_token read_claims verify_token get_grant find_request
    grant_of digest_of create_grant revoke_grant authorize_tool after_prefix bearer items_of common
    grant_create grant_revoke signing_secret uuid_text run_of policy_claims run_grant
    exchange_claims is_bound check_tools delegated_claims delegate exchange_token delegated_scopes
    tool_authorize tallies ones counted
runs = 0

abbrev search : Text
search = codes "s"

abbrev tool : Json
tool = str search

-- Claims of the run for the exchange, for the gateway, and its capability.
abbrev exchange_run : Fields
exchange_run = field (codes "aud") (str (codes "identity-delegation")) (
    field (codes "exp") (nat 1000) (
      field (codes "grant_id") (str (10 ∷ [])) (
        field (codes "run_id") (str (20 ∷ [])) (
          field (codes "attempt_id") (str (21 ∷ [])) (
            field (codes "lease_epoch") (nat 1) (
              field (codes "release_id") (str (3 ∷ []))
                (field (codes "active") (bool true) end)))))))

abbrev policy_run : Fields
policy_run = field (codes "aud") (str (codes "porfirium-gateway-policy")) (
    field (codes "exp") (nat 1000) (
      field (codes "run_id") (str (20 ∷ [])) (
        field (codes "attempt_id") (str (21 ∷ [])) (
          field (codes "lease_epoch") (nat 1)
            (field (codes "models") (arr nil) (field (codes "tools") (arr (cons tool nil)) end))))))

abbrev capability_run : Fields
capability_run = field (codes "aud") (str (codes "agent-runtime-api")) (
    field (codes "exp") (nat 1000) (
      field (codes "delegation_grant_id") (str (10 ∷ [])) (
        field (codes "run_id") (str (20 ∷ [])) (
          field (codes "attempt_id") (str (21 ∷ [])) (
            field (codes "lease_epoch") (nat 1) (
              field (codes "release_id") (str (3 ∷ []))
                (field (codes "tools") (arr (cons tool nil)) end)))))))

abbrev scope : Text
scope = tool_scope search

abbrev body : ExchangeGrant
body = record { run_id = 20; attempt_id = 21; lease_epoch = 1; scopes = scope ∷ [] }

abbrev asked : CreateGrant
asked = record { conversation_id = 2; release_id = 3; maximum_scopes = scope ∷ [] }

abbrev sha256 : NewGrant → Digest
sha256 p = p.expires_at

abbrev granted : GrantRecord
granted = record {
  user_id = 1;
  conversation_id = 2;
  release_id = 3;
  maximum_scopes = scope ∷ [];
  expires_at = 28801000000;
  revoked_at = none;
  created_at = 1000000;
}

abbrev blank : Service
blank = record {
  codec = sample (λ t. none);
  show_uuid = λ u. u ∷ [];
  read_uuid = λ t. elim t [ [] ↦ none | u ∷ us ↦ some u ];
  delegation_signing_secret = 7 ∷ [];
  run_capability_secret = 8 ∷ [];
}

-- The claims by the length of their audience.
abbrev loads : Text → Option Json
loads [] = none
loads (c ∷ cs) =
    if c == 19
    then some (sort_keys (obj exchange_run))
    else if c == 24
    then some (sort_keys (obj policy_run))
    else if c == 17
    then some (sort_keys (obj capability_run))
    else some
        (sort_keys (obj (delegated_claims blank 10 body granted (scope ∷ []) 30 2000000 302000000)))

abbrev codec : Codec
codec = sample loads

abbrev service : Service
service = record blank { codec = codec }

abbrev authorization : Fields → Text → Option Text
authorization claims secret = some (codes "Bearer " ++ issue_token codec claims secret)

abbrev token : DelegatedToken
token = record {
  access_token =
      issue_token codec (delegated_claims service 10 body granted (scope ∷ []) 30 2000000 302000000)
        (7 ∷ []);
  expires_at = 302000000;
  scopes = scope ∷ [];
}

verify_token-issue_token_example :
    verify_token codec
      (issue_token codec exchange_run (7 ∷ []))
      (7 ∷ [])
      (codes "identity-delegation")
      2000000
    ≡ ok (sort_fields exchange_run)
unfolding runs
verify_token-issue_token_example =
    verify_token-issue_token codec (sample-Base64Laws loads) exchange_run (7 ∷ [])
      (codes "identity-delegation") 1000 2000000 refl refl refl (omega arith)

abbrev empty : Db
empty = record { grants = []; requests = [] }

abbrev db_of : {A : Type 0} → Result Problem (A × Db) → Db
db_of (ok (a, d)) = d
db_of (err p) = empty

abbrev create : Result Problem ((Uuid × GrantRecord) × Db)
create = grant_create sha256 asked 1 40 10 1000000 empty

create_ok : create ≡ ok ((10, granted), db_of create)
unfolding runs
create_ok = refl

exchanged :
    exchange_token service 10 body
      (authorization exchange_run (7 ∷ []))
      none
      30
      2000000
      (db_of create)
    ≡ ok token
unfolding runs
exchanged = refl

exchange_token_limits_example :
    (g : GrantRecord) × (lookup 10 (db_of create).grants ≡ some g)
    × (g.revoked_at ≡ none)
    × (2000000 < 302000000)
    × (302000000 ≤ g.expires_at)
    × (302000000 ≤ 2000000 + five_minutes)
    × ((t : Text) → contains t (scope ∷ []) ≡ contains t (scope ∷ []))
    × ((t : Text) → contains t (scope ∷ []) ≡ true → contains t g.maximum_scopes ≡ true)
exchange_token_limits_example =
    exchange_token_limits service 10 body (authorization exchange_run (7 ∷ [])) none 30 2000000
      (db_of create) token exchanged

exchanged_by_capability :
    exchange_token service 10 body none
      (authorization capability_run (8 ∷ []))
      30
      2000000
      (db_of create)
    ≡ ok token
unfolding runs
exchanged_by_capability = refl

abbrev run : RunGrant
run = record {
  run_id = 20 ∷ [];
  attempt_id = 21 ∷ [];
  lease_epoch = 1;
  models = [];
  tools = search ∷ [];
  cancelled = false;
}

run_ok : run_grant service (authorization policy_run (7 ∷ [])) 3000000 ≡ ok run
unfolding runs
run_ok = refl

found : lookup 10 (db_of create).grants ≡ some granted
unfolding runs
found = refl

tool_call : Result Problem (Unit {0})
tool_call =
    tool_authorize service search (authorization policy_run (7 ∷ []))
      (some (codes "Bearer " ++ token.access_token)) 3000000

exchanged_token_authorizes_example : tool_call ≡ ok tt
unfolding runs tool_call
exchanged_token_authorizes_example =
    exchanged_token_authorizes service (sample-Base64Laws loads) 10 body
      (authorization exchange_run (7 ∷ [])) none 30 2000000 (db_of create) token
      (λ g h.
        subst
          (λ v.
            codec.loads (
              codec.dumps (
                sort_keys
                  (obj (delegated_claims service 10 body v (scope ∷ []) 30 2000000 302000000))))
            ≡ some (
                sort_keys
                  (obj (delegated_claims service 10 body v (scope ∷ []) 30 2000000 302000000))))
          (some_injective granted g (sym found ∙ h)) refl)
      exchanged search (authorization policy_run (7 ∷ [])) 3000000 run (omega arith) run_ok refl
      refl refl refl refl refl

called : tool_call ≡ ok tt
unfolding runs tool_call
called = refl

tool_authorize_requires_example :
    (run : RunGrant) × (t : Text) × (claims : Fields) × (scopes : List Text) × (run_grant service
        (authorization policy_run (7 ∷ []))
        3000000
      ≡ ok run)
    × (bearer (some (codes "Bearer " ++ token.access_token)) ≡ ok t)
    × (verify_token codec t (7 ∷ []) mcp_audience 3000000 ≡ ok claims)
    × (is_text (get (codes "run_id") claims) run.run_id ≡ true)
    × (is_text (get (codes "attempt_id") claims) run.attempt_id ≡ true)
    × (is_int codec.python (get (codes "lease_epoch") claims) run.lease_epoch ≡ true)
    × (delegated_scopes service claims ≡ ok scopes)
    × (run.cancelled ≡ false)
    × (contains search run.tools ≡ true)
    × (contains (tool_scope search) scopes ≡ true)
unfolding tool_call
tool_authorize_requires_example =
    tool_authorize_requires service search (authorization policy_run (7 ∷ []))
      (some (codes "Bearer " ++ token.access_token)) 3000000 called

abbrev revoke : Result Problem Db
revoke = grant_revoke 10 1 2000000 (db_of create)

abbrev revoked_db : Db
revoked_db = record (db_of create) {
  grants = (10, record granted { revoked_at = some 2000000 }) ∷ [];
}

revoke_ok : revoke ≡ ok revoked_db
unfolding runs
revoke_ok = refl

grant_revoke_final_example :
    (p : Problem) × (exchange_token service 10 body
        (authorization exchange_run (7 ∷ []))
        none
        31
        3000000
        revoked_db
      ≡ err p)
grant_revoke_final_example =
    grant_revoke_final service {sha256 = sha256} 10 1 2000000 (db_of create) revoked_db revoked_db
      revoke_ok here body (authorization exchange_run (7 ∷ [])) none 31 3000000

grant_create_retry_example :
    grant_create sha256 asked 1 40 11 1000001 (db_of create) ≡ err idempotency_conflict
grant_create_retry_example =
    grant_create_retry sha256 (λ p a b h. h) asked 1 40 10 11 1000000 1000001 empty (db_of create)
      (db_of create) (10, granted) create_ok here (λ h. omega arith)
