-- ===== src/Configuration/Bounds.antt =====
-- What `validate_bounded` of services/configuration-service/configuration_service/domain.py accepts,
-- by a description that does not walk the document in its order.
use Prim.Native.Nat.{max}
use porfirium.Prelude.{
  not, refl, ℕ, ◌+◌, suc, ◌≡◌, ◌≤◌, ◌↔◌, inl, inr, Bool, true, false, ◌&&◌, leb, ltb, length,
  Result, ok, err, ◌>>◌, raise_if, Result-cases, arith, Json, Items, Fields, null, bool, nat,
  number, str, arr, obj, nil, cons, end, field,
}
use porfirium.Configuration.Documents.{
  Problem, max_depth, max_key, max_configuration_bytes, validate_at, validate_items,
  validate_fields, validate_bounded,
}

-- How many objects and arrays stand around the innermost value, and whether all keys are short.
mutual
  pub nesting : Json → ℕ
  nesting (obj fs) = nesting_fields fs
  nesting (arr xs) = nesting_items xs
  nesting _ = 0

  nesting_items : Items → ℕ
  nesting_items nil = 0
  nesting_items (cons x xs) = max (suc (nesting x)) (nesting_items xs)

  nesting_fields : Fields → ℕ
  nesting_fields end = 0
  nesting_fields (field k v fs) = max (suc (nesting v)) (nesting_fields fs)

mutual
  pub short_keys : Json → Bool
  short_keys (obj fs) = short_fields fs
  short_keys (arr xs) = short_items xs
  short_keys _ = true

  short_items : Items → Bool
  short_items nil = true
  short_items (cons x xs) = short_keys x && short_items xs

  short_fields : Fields → Bool
  short_fields end = true
  short_fields (field k v fs) = leb (length k) max_key && short_keys v && short_fields fs

-- The check passes.
abbrev pub passes : Result Problem (Unit {0}) → Bool
passes (ok u) = true
passes (err e) = false

both : (r s : Result Problem (Unit {0})) → passes (r >> s) ≡ passes r && passes s
both (ok u) s = refl
both (err e) s = refl

guard-passes :
    (b : Bool) (e : Problem) (s : Result Problem (Unit {0}))
    → passes (raise_if b e >> s) ≡ not b && passes s
guard-passes true e s = refl
guard-passes false e s = refl

-- One child more, and the rest of the level.
deeper :
    (d n rest : ℕ) (short tail shorts : Bool)
    → not (ltb max_depth d) && tail ≡ leb (d + rest) max_depth && shorts
    → not (ltb max_depth d) && ((leb (d + 1 + n) max_depth && short) && tail)
      ≡ leb (d + max (suc n) rest) max_depth && (short && shorts)
deeper d n rest short tail shorts h = ground (arith, h)

-- A field's key besides.
keyed :
    (key d n rest : ℕ) (short tail shorts : Bool)
    → not (ltb max_depth d) && tail ≡ leb (d + rest) max_depth && shorts
    → not (ltb max_depth d)
        && (not (ltb max_key key) && ((leb (d + 1 + n) max_depth && short) && tail))
      ≡ leb (d + max (suc n) rest) max_depth && (leb key max_key && short && shorts)
keyed key d n rest short tail shorts h = ground (arith, h)

-- The walk passes from a depth exactly when the rest of the nesting fits below the limit.
mutual
  unfolding validate_at nesting short_keys

  validate_at-passes :
      (d : ℕ) (v : Json) → passes (validate_at d v) ≡ leb (d + nesting v) max_depth && short_keys v
  validate_at-passes d null = ground arith
  validate_at-passes d (bool b) = ground arith
  validate_at-passes d (nat n) = ground arith
  validate_at-passes d (number n) = ground arith
  validate_at-passes d (str s) = ground arith
  validate_at-passes d (arr xs) = rw (guard-passes) (validate_items-passes d xs)
  validate_at-passes d (obj fs) = rw (guard-passes) (validate_fields-passes d fs)

  validate_items-passes :
      (d : ℕ) (xs : Items)
      → not (ltb max_depth d) && passes (validate_items d xs)
        ≡ leb (d + nesting_items xs) max_depth && short_items xs
  validate_items-passes d nil = ground arith
  validate_items-passes d (cons x xs) =
      rw (both, validate_at-passes (d + 1) x)
        (deeper d (nesting x) (nesting_items xs) (short_keys x) _ (short_items xs)
          (validate_items-passes d xs))

  validate_fields-passes :
      (d : ℕ) (fs : Fields)
      → not (ltb max_depth d) && passes (validate_fields d fs)
        ≡ leb (d + nesting_fields fs) max_depth && short_fields fs
  validate_fields-passes d end = ground arith
  validate_fields-passes d (field k v fs) =
      rw (guard-passes, both, validate_at-passes (d + 1) v)
        (keyed (length k) d (nesting v) (nesting_fields fs) (short_keys v) _ (short_fields fs)
          (validate_fields-passes d fs))

-- A document is accepted exactly when its canonical JSON fits the limit, it is nested no deeper than
-- the limit, and all its keys, at any depth, are short.
pub validate_bounded_iff :
    (encoded_bytes : Json → ℕ) (v : Json)
    → (validate_bounded encoded_bytes v ≡ ok tt) ↔ (
        (encoded_bytes v ≤ max_configuration_bytes)
        × (nesting v ≤ max_depth)
        × (short_keys v ≡ true))
unfolding validate_bounded
validate_bounded_iff encoded_bytes v = elim (Result-cases (validate_at 0 v)) [
  | inl (u, passed) ↦ ground (arith, validate_at-passes 0 v)
  | inr (e, failed) ↦ ground (arith, validate_at-passes 0 v)
]
