-- ===== src/Identity/Claims.antt =====
-- How services/identity-delegation/identity_delegation reads the claims of a token, which are a JSON
-- object: the tests and conversions of Python that main.py and tokens.py apply to them.
use porfirium.Prelude.{
  ℕ, Bool, true, false, not, Option, none, some, List, [], ◌∷◌, ◌==◌, if◌then◌else◌, Result, ok,
  err, Text, Json, Items, Fields, null, bool, nat, number, str, arr, obj, nil, cons, end, field,
  get, list_eq,
}

-- The codes of the raised `DelegationProblem`s.
pub data Problem : Type 0 where
  authentication_required token_invalid token_issuer_unavailable scopes_invalid idempotency_conflict
        grant_not_found run_binding_invalid grant_inactive release_binding_invalid scope_not_granted
        scope_not_delegated token_run_mismatch run_cancelled model_forbidden tool_grant_missing
        delegated_scope_missing :
      Problem
  -- An exception that no handler catches.
  internal_error : Problem
  -- A constraint of the database.
  integrity_violation : Problem

-- What Python does with other values than texts and natural numbers: the natural number that a literal is
-- equal to, if any, and that `int` makes of it; what `int` reads in a text; `str` of a value. An
-- integer below 0 counts as none, as no time and no lease epoch is one.
pub record Python : Type 0 where
  pub number_value : Text → Option ℕ
  pub number_int : Text → Option ℕ
  pub read_int : Text → Option ℕ
  pub show : Json → Text

-- `v == s` for a text `s`
abbrev pub is_text : Option Json → Text → Bool
is_text (some (str t)) s = list_eq t s
is_text _ s = false

-- `v is True`
abbrev pub is_true : Option Json → Bool
is_true (some (bool b)) = b
is_true _ = false

abbrev equals : Option ℕ → ℕ → Bool
equals none n = false
equals (some m) n = m == n

-- `claims.get("aud", claims.get("audience"))`
abbrev pub get_or : Text → Option Json → Fields → Option Json
get_or k default claims = elim (get k claims) [ none ↦ default | some v ↦ some v ]

module _ (y : Python) where
  -- `v == n` for an int `n`
  unfoldable pub is_int : Option Json → ℕ → Bool
  is_int (some (nat m)) n = m == n
  is_int (some (bool b)) n = (if b then 1 else 0) == n
  is_int (some (number t)) n = equals (y.number_value t) n
  is_int _ n = false

  -- `int(v)`, none where it raises TypeError or ValueError
  unfoldable pub int_of : Json → Option ℕ
  int_of (nat n) = some n
  int_of (bool b) = some (if b then 1 else 0)
  int_of (number t) = y.number_int t
  int_of (str t) = y.read_int t
  int_of _ = none

  -- `bool(v)`
  unfoldable pub truthy : Json → Bool
  truthy null = false
  truthy (bool b) = b
  truthy (nat n) = not (n == 0)
  truthy (number t) = not (equals (y.number_value t) 0)
  truthy (str []) = false
  truthy (arr nil) = false
  truthy (obj end) = false
  truthy _ = true

  -- `str(v)` of what a list holds
  unfoldable pub text_of : Json → Text
  text_of (str t) = t
  text_of v = y.show v

  unfoldable pub texts_of : Items → List Text
  texts_of nil = []
  texts_of (cons v vs) = text_of v ∷ texts_of vs

unfoldable pub keys : Fields → List Text
keys end = []
keys (field k v fs) = k ∷ keys fs

unfoldable pub characters : Text → List Text
characters [] = []
characters (c ∷ cs) = (c ∷ []) ∷ characters cs

-- The texts in `frozenset(v)` of a list; no other value in it is equal to a text. A list or a
-- dictionary in it has no hash, which raises TypeError.
unfoldable pub hashed : Items → Option (List Text)
hashed nil = some []
hashed (cons (arr xs) vs) = none
hashed (cons (obj fs) vs) = none
hashed (cons (str t) vs) = elim (hashed vs) [ none ↦ none | some ts ↦ some (t ∷ ts) ]
hashed (cons _ vs) = hashed vs

-- `frozenset(v)`, none where it raises TypeError
unfoldable pub members : Json → Option (List Text)
members (arr vs) = hashed vs
members (str t) = some (characters t)
members (obj fs) = some (keys fs)
members _ = none

-- `str(tool) for tool in v`
unfoldable pub each_text : Python → Json → Result Problem (List Text)
each_text y (arr vs) = ok (texts_of y vs)
each_text y (str t) = ok (characters t)
each_text y (obj fs) = ok (keys fs)
each_text y _ = err internal_error
