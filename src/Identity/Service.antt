-- ===== src/Identity/Service.antt =====
-- services/identity-delegation/identity_delegation/main.py up to the exchange of tokens: bodies, headers,
-- `grant_create`, `grant_revoke` and `run_grant`. The text of a UUID and
-- the UUID that a text denotes are parameters, as are the secrets of the environment.
use porfirium.Prelude.{
  ℕ, ◌+◌, Bool, true, false, not, Option, none, some, List, [], ◌∷◌, Uuid, Key, Digest, Time, ◌==◌,
  leb, length, if◌then◌else◌, Result, ok, err, ◌>>=◌, ◌>>◌, raise_if, or_raise, Text, codes, Json,
  Items, Fields, str, nil, cons, get, contains, sort_texts, distinct, select,
}
use porfirium.Identity.Claims.{
  Problem, authentication_required, token_invalid, token_issuer_unavailable, scopes_invalid,
  grant_not_found, internal_error, int_of, truthy, members,
}
use porfirium.Identity.Tokens.{Codec, verify_token}
use porfirium.Identity.Grants.{GrantRecord, NewGrant, Db, get_grant, create_grant, revoke_grant}
use porfirium.Identity.Policy.{RunGrant}

pub record Service : Type 0 where
  pub codec : Codec
  pub show_uuid : Uuid → Text
  pub read_uuid : Text → Option Uuid
  -- The environment: DELEGATION_SIGNING_SECRET and RUN_CAPABILITY_SECRET, empty where unset.
  pub delegation_signing_secret : Text
  pub run_capability_secret : Text

pub record CreateGrant : Type 0 where
  pub conversation_id : Uuid
  pub release_id : Uuid
  pub maximum_scopes : List Text

pub record ExchangeGrant : Type 0 where
  pub run_id : Uuid
  pub attempt_id : Uuid
  pub lease_epoch : ℕ
  pub scopes : List Text

pub record DelegatedToken : Type 0 where
  pub access_token : Text
  pub expires_at : Time
  pub scopes : List Text

-- `timedelta(hours=8)` and `timedelta(minutes=5)` in microseconds.
abbrev pub eight_hours : ℕ
eight_hours = 28800000000

abbrev pub five_minutes : ℕ
five_minutes = 300000000

abbrev pub is_empty : Text → Bool
is_empty [] = true
is_empty _ = false

-- The text after a prefix, none where the text does not start with it.
unfoldable pub after_prefix : Text → Text → Option Text
after_prefix [] t = some t
after_prefix (c ∷ cs) [] = none
after_prefix (c ∷ cs) (d ∷ ds) = let rest = after_prefix cs ds in if c == d then rest else none

unfoldable pub bearer : Option Text → Result Problem Text
bearer none = err authentication_required
bearer (some value) = or_raise (after_prefix (codes "Bearer ") value) authentication_required

-- `scopes` as they stand in a token.
unfoldable pub items_of : List Text → Items
items_of [] = nil
items_of (t ∷ ts) = cons (str t) (items_of ts)

-- `sorted(set(xs) & set(ys))`
unfoldable pub common : List Text → List Text → List Text
common xs ys = sort_texts (distinct (select (λ x. contains x ys) xs))

-- `min(a, b)`
abbrev pub earlier : Time → Time → Time
earlier a b = if leb a b then a else b

unfoldable pub grant_create :
    (NewGrant → Digest)
    → CreateGrant
    → Uuid
    → Key
    → Uuid
    → Time
    → Db
    → Result Problem ((Uuid × GrantRecord) × Db)
grant_create sha256 body user key id now d = do
  raise_if (not (length (distinct body.maximum_scopes) == length body.maximum_scopes))
      scopes_invalid
  create_grant sha256 key
      (record {
        user_id = user;
        conversation_id = body.conversation_id;
        release_id = body.release_id;
        maximum_scopes = body.maximum_scopes;
        expires_at = now + eight_hours;
      })
      id now d

unfoldable pub grant_revoke : Uuid → Uuid → Time → Db → Result Problem Db
grant_revoke id user now d = do
  g ← get_grant id d
  raise_if (not (g.user_id == user)) grant_not_found
  revoke_grant id now d

module _ (s : Service) where
  unfoldable pub signing_secret : Result Problem Text
  signing_secret = do
    raise_if (is_empty s.delegation_signing_secret) token_issuer_unavailable
    ok s.delegation_signing_secret

  -- `str(UUID(v))` of a claim
  unfoldable pub uuid_text : Option Json → Result Problem Text
  uuid_text (some (str t)) = do u ← or_raise (s.read_uuid t) token_invalid; ok (s.show_uuid u)
  uuid_text none = err token_invalid
  uuid_text (some Json.null) = err token_invalid
  uuid_text _ = err internal_error

  -- The construction of `RunGrant`
  unfoldable pub run_of : Fields → Result Problem RunGrant
  run_of claims = do
    run ← uuid_text (get (codes "run_id") claims)
    attempt ← uuid_text (get (codes "attempt_id") claims)
    epoch ← or_raise (get (codes "lease_epoch") claims) token_invalid
    n ← or_raise (int_of s.codec.python epoch) token_invalid
    models ← or_raise (get (codes "models") claims) token_invalid
    ms ← or_raise (members models) token_invalid
    tools ← or_raise (get (codes "tools") claims) token_invalid
    ts ← or_raise (members tools) token_invalid
    ok (record {
      run_id = run;
      attempt_id = attempt;
      lease_epoch = n;
      models = ms;
      tools = ts;
      cancelled = elim (get (codes "cancelled") claims) [
        | none ↦ false
        | some v ↦ truthy s.codec.python v
      ];
    })

  -- The claims under the signing secret, else under the capability secret where there is one.
  unfoldable pub policy_claims : Text → Time → Result Problem Fields
  policy_claims token now =
      let first = do
        secret ← signing_secret
        verify_token s.codec token secret (codes "porfirium-gateway-policy") now
      in elim first [
        | ok claims ↦ ok claims
        | err internal_error ↦ err internal_error
        | err problem ↦
            if is_empty s.run_capability_secret
            then err problem
            else verify_token s.codec token s.run_capability_secret (codes "agent-runtime-api") now
      ]

  unfoldable pub run_grant : Option Text → Time → Result Problem RunGrant
  run_grant authorization now = do
    token ← bearer authorization
    claims ← policy_claims token now
    run_of claims
