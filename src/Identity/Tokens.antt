-- ===== src/Identity/Tokens.antt =====
-- services/identity-delegation/identity_delegation/tokens.py. Base64, HMAC and the text of a JSON
-- value are parameters; the padding of Base64, the order of the keys and the form of a token are the
-- code's.
use porfirium.Prelude.{
  ℕ, ◌-◌, ◌%◌, ◌/◌, zero, suc, not, Option, none, some, [], ◌∷◌, ◌++◌, Time, ◌==◌, leb, length,
  if◌then◌else◌, Result, ok, err, ◌>>=◌, ◌>>◌, raise_if, or_raise, Text, codes, Json, Fields, obj,
  get, list_eq, sort_keys,
}
use porfirium.Identity.Claims.{
  Problem, token_invalid, internal_error, Python, is_text, get_or, int_of,
}

-- `urlsafe_b64encode`, `urlsafe_b64decode` (none where it raises), HMAC with SHA-256 of a text under
-- a secret, `json.dumps` of a value whose keys are in order, `json.loads` (none where it raises).
pub record Codec : Type 0 where
  pub urlsafe_b64encode : Text → Text
  pub urlsafe_b64decode : Text → Option Text
  pub hmac_sha256 : Text → Text → Text
  pub dumps : Json → Text
  pub loads : Text → Option Json
  pub python : Python

abbrev pub equals_sign : ℕ
equals_sign = 61

abbrev pub dot : ℕ
dot = 46

-- `int(t.timestamp())` of a time in microseconds
abbrev pub seconds : Time → ℕ
seconds t = t / 1000000

abbrev pub prepend : ℕ → Text → Text
prepend c [] = if c == equals_sign then [] else c ∷ []
prepend c (d ∷ ds) = c ∷ d ∷ ds

-- `t.rstrip("=")`
unfoldable pub rstrip : Text → Text
rstrip [] = []
rstrip (c ∷ cs) = prepend c (rstrip cs)

-- `"=" * n`
unfoldable pub signs : ℕ → Text
signs zero = []
signs (suc n) = equals_sign ∷ signs n

-- `-n % 4`
abbrev pub missing : ℕ → ℕ
missing n = (4 - n % 4) % 4

-- `token.split(".", 1)`, none where there is no dot.
unfoldable pub split_dot : Text → Option (Text × Text)
split_dot [] = none
split_dot (c ∷ cs) =
    let rest = split_dot cs in
    if c == dot
    then some ([], cs)
    else elim rest [ none ↦ none | some (payload, signature) ↦ some (c ∷ payload, signature) ]

-- The dictionary that a value is; `claims.get` raises AttributeError on others.
abbrev pub object_of : Json → Result Problem Fields
object_of (obj claims) = ok claims
object_of _ = err internal_error

module _ (c : Codec) where
  -- `_decode`
  unfoldable pub decode : Text → Option Text
  decode t = c.urlsafe_b64decode (t ++ signs (missing (length t)))

  unfoldable pub encode : Text → Text
  encode t = rstrip (c.urlsafe_b64encode t)

  unfoldable pub issue_token : Fields → Text → Text
  unfolding encode
  issue_token claims secret =
      let payload = encode (c.dumps (sort_keys (obj claims))) in
      payload ++ dot ∷ encode (c.hmac_sha256 secret payload)

  -- The claims of a payload whose signature is right.
  unfoldable pub read_claims : Text → Result Problem Fields
  unfolding decode
  read_claims payload = do
    text ← or_raise (decode payload) token_invalid
    value ← or_raise (c.loads text) token_invalid
    object_of value

  abbrev pub check_claims : Fields → Text → Time → Result Problem (Unit {0})
  check_claims claims audience now = do
    raise_if (not (is_text (get_or (codes "aud") (get (codes "audience") claims) claims) audience))
        token_invalid
    exp ← or_raise (get (codes "exp") claims) token_invalid
    n ← or_raise (int_of c.python exp) token_invalid
    raise_if (leb n (seconds now)) token_invalid

  unfoldable pub verify_token : Text → Text → Text → Time → Result Problem Fields
  unfolding read_claims
  verify_token token secret audience now = do
    (payload, signature) ← or_raise (split_dot token) token_invalid
    given ← or_raise (decode signature) token_invalid
    raise_if (not (list_eq given (c.hmac_sha256 secret payload))) token_invalid
    claims ← read_claims payload
    check_claims claims audience now
    ok claims
