-- ===== src/Identity/Authorized.antt =====
-- An exchanged token at the gateway (services/identity-delegation/identity_delegation/main.py).
use porfirium.Prelude.{
  ◌<◌, ◌≡◌, ◌∙◌, ap, sym, refl, true, false, Option, some, List, ◌++◌, Uuid, Time, ==_refl, inl,
  inr, Result-cases, ok, Text, codes, Fields, nat, str, arr, get, contains, lookup, list_eq_refl,
  sort_keys, sort_fields, get-sort_fields, arith,
}
use porfirium.Identity.Claims.{is_text, is_int, members}
use porfirium.Identity.Tokens.{seconds, verify_token, issue_token}
use porfirium.Identity.Encoding.{Base64Laws}
use porfirium.Identity.RoundTrip.{Rereads, verify_token-issue_token}
use porfirium.Identity.Grants.{GrantRecord, Db}
use porfirium.Identity.Policy.{RunGrant, tool_scope, authorize_tool}
use porfirium.Identity.Scopes.{sort_items-items_of, hashed-items_of}
use porfirium.Identity.Service.{
  Service, ExchangeGrant, DelegatedToken, after_prefix, bearer, is_empty, items_of, signing_secret,
  run_grant,
}
use porfirium.Identity.Exchange.{
  mcp_audience, delegated_claims, delegated_scopes, exchange_token, tool_authorize,
}
use porfirium.Identity.Limits.{exchange_token-Passed}

bearer_prefixed : (t : Text) → bearer (some (codes "Bearer " ++ t)) ≡ ok t
unfolding bearer after_prefix
bearer_prefixed t = refl

module _ (s : Service) where
  -- The claims that bind a token to a run, as the gateway reads them back.
  module _ (id : Uuid) (body : ExchangeGrant) (g : GrantRecord) (scopes : List Text) (jti : Uuid)
      (now expires : Time) where
    abbrev reread : Fields
    reread = sort_fields (delegated_claims s id body g scopes jti now expires)

    reread-run_id : get (codes "run_id") reread ≡ some (str (s.show_uuid body.run_id))
    unfolding get delegated_claims sort_keys
    reread-run_id =
        get-sort_fields (codes "run_id") (delegated_claims s id body g scopes jti now expires)

    reread-attempt_id : get (codes "attempt_id") reread ≡ some (str (s.show_uuid body.attempt_id))
    unfolding get delegated_claims sort_keys
    reread-attempt_id =
        get-sort_fields (codes "attempt_id") (delegated_claims s id body g scopes jti now expires)

    reread-lease_epoch : get (codes "lease_epoch") reread ≡ some (nat body.lease_epoch)
    unfolding get delegated_claims sort_keys
    reread-lease_epoch =
        get-sort_fields (codes "lease_epoch") (delegated_claims s id body g scopes jti now expires)

    reread-scopes : get (codes "scopes") reread ≡ some (arr (items_of scopes))
    unfolding get delegated_claims sort_keys
    reread-scopes =
        get-sort_fields (codes "scopes") (delegated_claims s id body g scopes jti now expires)
        ∙ ap (λ x. some (arr x)) (sort_items-items_of scopes)

    reread_scopes : delegated_scopes s reread ≡ ok scopes
    unfolding delegated_scopes members
    reread_scopes = rw (reread-scopes, hashed-items_of scopes) refl

    verified :
        (laws : Base64Laws s.codec) (t : Time)
        → Rereads s.codec (delegated_claims s id body g scopes jti now expires)
        → seconds t < seconds expires
        → verify_token s.codec
            (issue_token s.codec
              (delegated_claims s id body g scopes jti now expires)
              s.delegation_signing_secret)
            s.delegation_signing_secret
            mcp_audience
            t
          ≡ ok reread
    unfolding get delegated_claims
    verified laws t rereads early =
        verify_token-issue_token s.codec laws (delegated_claims s id body g scopes jti now expires)
          s.delegation_signing_secret mcp_audience (seconds expires) t rereads refl refl early

  -- The call of a tool passes where all its checks do.
  tool_authorize-passes :
      (tool : Text) (authorization : Option Text) (token : Text) (t : Time) (run : RunGrant)
      (claims : Fields) (scopes : List Text)
      → run_grant s authorization t ≡ ok run
      → is_empty s.delegation_signing_secret ≡ false
      → verify_token s.codec token s.delegation_signing_secret mcp_audience t ≡ ok claims
      → get (codes "run_id") claims ≡ some (str run.run_id)
      → get (codes "attempt_id") claims ≡ some (str run.attempt_id)
      → get (codes "lease_epoch") claims ≡ some (nat run.lease_epoch)
      → delegated_scopes s claims ≡ ok scopes
      → authorize_tool run tool scopes ≡ ok tt
      → tool_authorize s tool authorization (some (codes "Bearer " ++ token)) t ≡ ok tt
  unfolding tool_authorize signing_secret is_int
  tool_authorize-passes tool authorization token t run claims scopes runs secret valid run_id
        attempt epoch listed allowed =
      rw
        (
          runs,
          bearer_prefixed token,
          secret,
          valid,
          run_id,
          attempt,
          epoch,
          list_eq_refl run.run_id,
          list_eq_refl run.attempt_id,
          ==_refl run.lease_epoch,
          listed,
        )
        allowed

  authorize_tool-passes :
      (run : RunGrant) (tool : Text) (scopes : List Text)
      → run.cancelled ≡ false
      → contains tool run.tools ≡ true
      → contains (tool_scope tool) scopes ≡ true
      → authorize_tool run tool scopes ≡ ok tt
  unfolding authorize_tool
  authorize_tool-passes run tool scopes active granted delegated =
      rw (active, granted, delegated) refl

  -- A token that was exchanged for a run lets this run call each tool that its scopes name, until the second at
  -- which the token expires, as long as the run's own grant is valid, not cancelled and names the
  -- tool. Base64 is as its standard has it, and JSON gives back the claims that are written.
  pub exchanged_token_authorizes :
      (laws : Base64Laws s.codec) (id : Uuid) (body : ExchangeGrant)
      (authorization capability : Option Text) (jti : Uuid) (now : Time) (d : Db)
      (token : DelegatedToken)
      → ((g : GrantRecord)
          → lookup id d.grants ≡ some g
          → Rereads s.codec (delegated_claims s id body g token.scopes jti now token.expires_at))
      → exchange_token s id body authorization capability jti now d ≡ ok token
      → (tool : Text) (run_authorization : Option Text) (t : Time) (run : RunGrant)
      → seconds t < seconds token.expires_at
      → run_grant s run_authorization t ≡ ok run
      → run.run_id ≡ s.show_uuid body.run_id
      → run.attempt_id ≡ s.show_uuid body.attempt_id
      → run.lease_epoch ≡ body.lease_epoch
      → run.cancelled ≡ false
      → contains tool run.tools ≡ true
      → contains (tool_scope tool) token.scopes ≡ true
      → tool_authorize s tool run_authorization (some (codes "Bearer " ++ token.access_token)) t
        ≡ ok tt
  exchanged_token_authorizes laws id body authorization capability jti now d token rereads e tool
        run_authorization t run early runs same_run same_attempt same_epoch active granted
        delegated =
      let (
        claims,
        g,
        read,
        bound,
        found,
        (live, unexpired, checked, same, secret, expires, scopes, text),
      ) =
        exchange_token-Passed s id body authorization capability jti now d token e in
      let valid =
        verified id body g token.scopes jti now token.expires_at laws t (rereads g found) early in
      tool_authorize-passes tool run_authorization token.access_token t run
        (reread id body g token.scopes jti now token.expires_at) token.scopes runs secret
        (ap (λ x. verify_token s.codec x s.delegation_signing_secret mcp_audience t) text ∙ valid)
        (reread-run_id id body g token.scopes jti now token.expires_at
          ∙ ap (λ x. some (str x)) (sym same_run))
        (reread-attempt_id id body g token.scopes jti now token.expires_at
          ∙ ap (λ x. some (str x)) (sym same_attempt))
        (reread-lease_epoch id body g token.scopes jti now token.expires_at
          ∙ ap (λ x. some (nat x)) (sym same_epoch))
        (reread_scopes id body g token.scopes jti now token.expires_at)
        (authorize_tool-passes run tool token.scopes active granted delegated)

  -- A tool call passes only with a run grant that is not cancelled and names the tool, and a token under
  -- the signing secret whose run, attempt and lease are those of the run grant and whose scopes have
  -- the tool.
  pub tool_authorize_requires :
      (tool : Text) (authorization delegated : Option Text) (t : Time)
      → tool_authorize s tool authorization delegated t ≡ ok tt
      → (run : RunGrant) × (token : Text) × (claims : Fields) × (scopes : List Text) × (run_grant s
            authorization t
          ≡ ok run)
        × (bearer delegated ≡ ok token)
        × (verify_token s.codec token s.delegation_signing_secret mcp_audience t ≡ ok claims)
        × (is_text (get (codes "run_id") claims) run.run_id ≡ true)
        × (is_text (get (codes "attempt_id") claims) run.attempt_id ≡ true)
        × (is_int s.codec.python (get (codes "lease_epoch") claims) run.lease_epoch ≡ true)
        × (delegated_scopes s claims ≡ ok scopes)
        × (run.cancelled ≡ false)
        × (contains tool run.tools ≡ true)
        × (contains (tool_scope tool) scopes ≡ true)
  unfolding tool_authorize signing_secret authorize_tool
  tool_authorize_requires tool authorization delegated t e =
      elim (Result-cases (run_grant s authorization t)) [
        | inr (p, refused) ↦ ground arith
        | inl (run, runs) ↦ elim (Result-cases (bearer delegated)) [
          | inr (p, refused) ↦ ground arith
          | inl (token, given) ↦
              elim (Result-cases
                (verify_token s.codec token s.delegation_signing_secret mcp_audience t)) [
                  | inr (p, refused) ↦ ground arith
                  | inl (claims, valid) ↦ elim (Result-cases (delegated_scopes s claims)) [
                    | inr (p, refused) ↦ ground arith
                    | inl (scopes, listed) ↦ (
                      run,
                      token,
                      claims,
                      scopes,
                      runs,
                      given,
                      valid,
                      ground arith,
                      ground arith,
                      ground arith,
                      listed,
                      ground arith,
                      ground arith,
                      ground arith,
                    )
                  ]
                ]
        ]
      ]
