-- ===== src/Identity/Limits.antt =====
-- What an exchanged token is limited to.
use porfirium.Prelude.{
  ◌+◌, ◌≤◌, ◌<◌, ◌≡◌, ◌∙◌, sym, ap, inl, inr, Bool, true, false, Option, none, some, List, map,
  Uuid, Time, is_some, leb, lookup, ok, Result-cases, Option-cases, Text, codes, Fields, get,
  contains, all_in, same_set, arith,
}
use porfirium.Identity.Claims.{each_text}
use porfirium.Identity.Tokens.{issue_token}
use porfirium.Identity.Grants.{GrantRecord, Db, get_grant}
use porfirium.Identity.Policy.{tool_scope}
use porfirium.Identity.Service.{
  Service, ExchangeGrant, DelegatedToken, five_minutes, is_empty, common, earlier, signing_secret,
}
use porfirium.Identity.Exchange.{
  or_list, exchange_claims, is_bound, check_tools, delegated_claims, delegate, exchange_token,
}
use porfirium.Identity.Scopes.{common-within, contains-all_in, contains-same_set}

-- What a successful `delegate` has passed and the token that it makes.
abbrev pub Passed :
    Service
    → Uuid
    → ExchangeGrant
    → Bool
    → Fields
    → GrantRecord
    → Uuid
    → Time
    → DelegatedToken
    → Type 0
Passed s id body capability claims g jti now token =
    (is_some g.revoked_at ≡ false)
    × (leb g.expires_at now ≡ false)
    × (check_tools s body capability claims ≡ ok tt)
    × (same_set (common body.scopes g.maximum_scopes) body.scopes ≡ true)
    × (is_empty s.delegation_signing_secret ≡ false)
    × (token.expires_at ≡ earlier g.expires_at (now + five_minutes))
    × (token.scopes ≡ common body.scopes g.maximum_scopes)
    × (token.access_token
        ≡ issue_token s.codec (delegated_claims s id body g token.scopes jti now token.expires_at)
            s.delegation_signing_secret)

module _ (s : Service) where
  delegate-Passed :
      (id : Uuid) (body : ExchangeGrant) (capability : Bool) (claims : Fields) (g : GrantRecord)
      (jti : Uuid) (now : Time) (token : DelegatedToken)
      → delegate s id body capability claims g jti now ≡ ok token
      → Passed s id body capability claims g jti now token
  unfolding delegate signing_secret
  delegate-Passed id body capability claims g jti now token e =
      elim (Result-cases (check_tools s body capability claims)) [
        | inr (p, refused) ↦ ground arith
        | inl (u, passed) ↦ (
          ground arith,
          ground arith,
          passed,
          ground arith,
          ground arith,
          ground arith,
          ground arith,
          ground arith,
        )
      ]

  pub exchange_token-Passed :
      (id : Uuid) (body : ExchangeGrant) (authorization capability : Option Text) (jti : Uuid)
      (now : Time) (d : Db) (token : DelegatedToken)
      → exchange_token s id body authorization capability jti now d ≡ ok token
      → (claims : Fields) × (g : GrantRecord) × (exchange_claims s authorization capability now
          ≡ ok claims)
        × (is_bound s id body (is_some capability) claims ≡ true)
        × (lookup id d.grants ≡ some g)
        × Passed s id body (is_some capability) claims g jti now token
  unfolding exchange_token get_grant
  exchange_token-Passed id body authorization capability jti now d token e =
      elim (Result-cases (exchange_claims s authorization capability now)) [
        | inr (p, refused) ↦ ground arith
        | inl (claims, read) ↦ elim (Option-cases (lookup id d.grants)) [
          | inl absent ↦ ground arith
          | inr (g, found) ↦ (
            claims,
            g,
            read,
            ground arith,
            found,
            delegate-Passed id body (is_some capability) claims g jti now token (ground arith),
          )
        ]
      ]

  -- A token is exchanged only on a stored grant that is neither revoked nor expired. It expires after
  -- now, no later than the grant and no later than five minutes from now, and its scopes are those asked for,
  -- each of which the user delegated.
  pub exchange_token_limits :
      (id : Uuid) (body : ExchangeGrant) (authorization capability : Option Text) (jti : Uuid)
      (now : Time) (d : Db) (token : DelegatedToken)
      → exchange_token s id body authorization capability jti now d ≡ ok token
      → (g : GrantRecord) × (lookup id d.grants ≡ some g)
        × (g.revoked_at ≡ none)
        × (now < token.expires_at)
        × (token.expires_at ≤ g.expires_at)
        × (token.expires_at ≤ now + five_minutes)
        × ((t : Text) → contains t token.scopes ≡ contains t body.scopes)
        × ((t : Text) → contains t token.scopes ≡ true → contains t g.maximum_scopes ≡ true)
  exchange_token_limits id body authorization capability jti now d token e =
      let (
        claims,
        g,
        read,
        bound,
        found,
        (live, unexpired, checked, same, secret, expires, scopes, text),
      ) =
        exchange_token-Passed id body authorization capability jti now d token e in
      (
        g,
        found,
        ground arith,
        ground arith,
        ground arith,
        ground arith,
        (λ t.
            ap (contains t) scopes
            ∙ contains-same_set t (common body.scopes g.maximum_scopes) body.scopes same),
        (λ t h. common-within t body.scopes g.maximum_scopes (ap (contains t) (sym scopes) ∙ h)),
      )

  check_tools-within :
      (body : ExchangeGrant) (claims : Fields)
      → check_tools s body true claims ≡ ok tt
      → (tools : List Text) × (each_text s.codec.python (or_list (get (codes "tools") claims))
          ≡ ok tools)
        × (all_in body.scopes (map tool_scope tools) ≡ true)
  unfolding check_tools
  check_tools-within body claims e =
      elim (Result-cases (each_text s.codec.python (or_list (get (codes "tools") claims)))) [
        | inr (p, refused) ↦ ground arith
        | inl (tools, read) ↦ (tools, read, ground arith)
      ]

  -- A token that a run exchanges with its capability has only scopes of tools that the verified
  -- capability names.
  pub exchange_token_tools :
      (id : Uuid) (body : ExchangeGrant) (authorization : Option Text) (capability : Text)
      (jti : Uuid) (now : Time) (d : Db) (token : DelegatedToken)
      → exchange_token s id body authorization (some capability) jti now d ≡ ok token
      → (claims : Fields) × (tools : List Text) × (exchange_claims s authorization
            (some capability)
            now
          ≡ ok claims)
        × (each_text s.codec.python (or_list (get (codes "tools") claims)) ≡ ok tools)
        × ((t : Text) → contains t token.scopes ≡ true → contains t (map tool_scope tools) ≡ true)
  exchange_token_tools id body authorization capability jti now d token e =
      let (
        claims,
        g,
        read,
        bound,
        found,
        (live, unexpired, checked, same, secret, expires, scopes, text),
      ) =
        exchange_token-Passed id body authorization (some capability) jti now d token e in
      let (tools, named, within) = check_tools-within body claims checked in
      (
        claims,
        tools,
        read,
        named,
        λ t h. contains-all_in t body.scopes (map tool_scope tools) within (
            sym (contains-same_set t (common body.scopes g.maximum_scopes) body.scopes same)
            ∙ ap (contains t) (sym scopes)
            ∙ h),
      )
