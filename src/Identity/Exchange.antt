-- ===== src/Identity/Exchange.antt =====
-- `exchange_token` and the two authorizations of the gateway of
-- services/identity-delegation/identity_delegation/main.py.
use porfirium.Prelude.{
  ◌+◌, Bool, true, false, ◌&&◌, ◌||◌, not, Option, none, some, List, map, Uuid, Time, leb, is_some,
  if◌then◌else◌, Result, ok, ◌>>=◌, ◌>>◌, raise_if, or_raise, Text, codes, Json, Fields, nat, str,
  arr, nil, end, field, get, all_in, same_set,
}
use porfirium.Identity.Claims.{
  Problem, token_issuer_unavailable, run_binding_invalid, grant_inactive, release_binding_invalid,
  scope_not_granted, scope_not_delegated, token_run_mismatch, is_text, is_true, is_int, members,
  each_text, internal_error,
}
use porfirium.Identity.Tokens.{seconds, issue_token, verify_token}
use porfirium.Identity.Grants.{GrantRecord, Db, get_grant}
use porfirium.Identity.Policy.{tool_scope, authorize_model, authorize_tool}
use porfirium.Identity.Service.{
  Service, ExchangeGrant, DelegatedToken, five_minutes, is_empty, bearer, items_of, common, earlier,
  signing_secret, run_grant,
}

abbrev pub mcp_audience : Text
mcp_audience = codes "porfirium-mcp-gateway"

-- `claims.get(key, [])`
abbrev pub or_list : Option Json → Json
or_list none = arr nil
or_list (some v) = v

module _ (s : Service) where
  -- The claims of the capability where there is one, else of the authorization of the run.
  unfoldable pub exchange_claims : Option Text → Option Text → Time → Result Problem Fields
  exchange_claims authorization (some capability) now = do
    raise_if (is_empty s.run_capability_secret) token_issuer_unavailable
    token ← bearer (some capability)
    verify_token s.codec token s.run_capability_secret (codes "agent-runtime-api") now
  exchange_claims authorization none now = do
    token ← bearer authorization
    secret ← signing_secret s
    verify_token s.codec token secret (codes "identity-delegation") now

  -- The binding to the grant, the run, the attempt and the lease.
  unfoldable pub is_bound : Uuid → ExchangeGrant → Bool → Fields → Bool
  is_bound id body capability claims =
      is_text
        (if capability
          then get (codes "delegation_grant_id") claims
          else get (codes "grant_id") claims)
        (s.show_uuid id)
      && is_text (get (codes "run_id") claims) (s.show_uuid body.run_id)
      && is_text (get (codes "attempt_id") claims) (s.show_uuid body.attempt_id)
      && is_int s.codec.python (get (codes "lease_epoch") claims) body.lease_epoch

  unfoldable pub check_tools : ExchangeGrant → Bool → Fields → Result Problem (Unit {0})
  check_tools body false claims = ok tt
  check_tools body true claims = do
    tools ← each_text s.codec.python (or_list (get (codes "tools") claims))
    raise_if (not (all_in body.scopes (map tool_scope tools))) scope_not_granted

  unfoldable pub delegated_claims :
      Uuid → ExchangeGrant → GrantRecord → List Text → Uuid → Time → Time → Fields
  delegated_claims id body g scopes jti now expires = field (codes "aud") (str mcp_audience) (
      field (codes "sub") (str (s.show_uuid g.user_id)) (
        field (codes "grant_id") (str (s.show_uuid id)) (
          field (codes "run_id") (str (s.show_uuid body.run_id)) (
            field (codes "attempt_id") (str (s.show_uuid body.attempt_id)) (
              field (codes "lease_epoch") (nat body.lease_epoch) (
                field (codes "scopes") (arr (items_of scopes)) (
                  field (codes "jti") (str (s.show_uuid jti)) (
                    field (codes "iat") (nat (seconds now))
                      (field (codes "exp") (nat (seconds expires)) end)))))))))

  -- The rest of `exchange_token` where the claims are verified and the grant is there.
  unfoldable pub delegate :
      Uuid
      → ExchangeGrant
      → Bool
      → Fields
      → GrantRecord
      → Uuid
      → Time
      → Result Problem DelegatedToken
  delegate id body capability claims g jti now = do
    raise_if (is_some g.revoked_at || leb g.expires_at now) grant_inactive
    raise_if (not (is_text (get (codes "release_id") claims) (s.show_uuid g.release_id)))
        release_binding_invalid
    check_tools body capability claims
    raise_if (not (same_set (common body.scopes g.maximum_scopes) body.scopes)) scope_not_delegated
    secret ← signing_secret s
    ok (
        let expires = earlier g.expires_at (now + five_minutes) in
        let scopes = common body.scopes g.maximum_scopes in
        record {
          access_token =
              issue_token s.codec (delegated_claims id body g scopes jti now expires) secret;
          expires_at = expires;
          scopes = scopes;
        })

  -- `exchange_token`, with the new `jti` as an argument
  unfoldable pub exchange_token :
      Uuid
      → ExchangeGrant
      → Option Text
      → Option Text
      → Uuid
      → Time
      → Db
      → Result Problem DelegatedToken
  exchange_token id body authorization capability jti now d = do
    claims ← exchange_claims authorization capability now
    raise_if
        (not (is_bound id body (is_some capability) claims)
          || not (is_true (get (codes "active") claims) || is_some capability)
          || is_true (get (codes "cancelled") claims))
        run_binding_invalid
    g ← get_grant id d
    delegate id body (is_some capability) claims g jti now

  unfoldable pub model_authorize : Text → Option Text → Time → Result Problem (Unit {0})
  model_authorize model authorization now = do
    run ← run_grant s authorization now
    authorize_model run model

  -- `frozenset(delegated.get("scopes", []))`
  unfoldable pub delegated_scopes : Fields → Result Problem (List Text)
  delegated_scopes claims =
      or_raise (members (or_list (get (codes "scopes") claims))) internal_error

  unfoldable pub tool_authorize :
      Text → Option Text → Option Text → Time → Result Problem (Unit {0})
  tool_authorize tool authorization delegated now = do
    run ← run_grant s authorization now
    token ← bearer delegated
    secret ← signing_secret s
    claims ← verify_token s.codec token secret mcp_audience now
    raise_if
        (not (is_text (get (codes "run_id") claims) run.run_id)
          || not (is_text (get (codes "attempt_id") claims) run.attempt_id)
          || not (is_int s.codec.python (get (codes "lease_epoch") claims) run.lease_epoch))
        token_run_mismatch
    scopes ← delegated_scopes claims
    authorize_tool run tool scopes
