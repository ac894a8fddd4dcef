-- ===== src/Configuration/Documents.antt =====
-- services/configuration-service/configuration_service/domain.py: the bounds of a document and the
-- merging of layers.
use porfirium.Prelude.{
  ℕ, ◌+◌, Option, some, List, [], ◌∷◌, ltb, length, Result, ok, ◌>>◌, raise_if, Json, Items, Fields,
  obj, arr, nil, cons, end, field, get, set_field,
}

pub data Problem : Type 0 where
  configuration_too_deep configuration_too_large configuration_invalid schema_digest_mismatch
        schema_invalid configuration_schema_violation idempotency_conflict revision_not_found
        revision_incompatible revision_schema_changed :
      Problem
  -- A constraint of the database.
  integrity_violation : Problem
  -- An exception that the service does not catch.
  internal_error : Problem

abbrev pub max_configuration_bytes : ℕ
max_configuration_bytes = 65536

abbrev pub max_depth : ℕ
max_depth = 16

abbrev pub max_key : ℕ
max_key = 128

unfoldable mutual
  pub validate_at : ℕ → Json → Result Problem (Unit {0})
  validate_at depth (obj fs) =
      raise_if (ltb max_depth depth) configuration_too_deep >> validate_fields depth fs
  validate_at depth (arr xs) =
      raise_if (ltb max_depth depth) configuration_too_deep >> validate_items depth xs
  validate_at depth _ = raise_if (ltb max_depth depth) configuration_too_deep

  pub validate_items : ℕ → Items → Result Problem (Unit {0})
  validate_items depth nil = ok tt
  validate_items depth (cons x xs) = validate_at (depth + 1) x >> validate_items depth xs

  pub validate_fields : ℕ → Fields → Result Problem (Unit {0})
  validate_fields depth end = ok tt
  validate_fields depth (field k v fs) =
      raise_if (ltb max_key (length k)) configuration_invalid
      >> (validate_at (depth + 1) v >> validate_fields depth fs)

-- `validate_bounded` at depth 0, where nothing is too deep yet. `encoded_bytes` is the length of the
-- canonical JSON.
unfoldable pub validate_bounded : (Json → ℕ) → Json → Result Problem (Unit {0})
validate_bounded encoded_bytes v =
    raise_if (ltb max_configuration_bytes (encoded_bytes v)) configuration_too_large
    >> validate_at 0 v

-- The loop of `merge_layers` over one more layer. A mapping that is there already is the first layer
-- of the inner call, which copies it.
unfoldable mutual
  pub merge_into : Fields → Fields → Fields
  merge_into result end = result
  merge_into result (field k v fs) =
      merge_into (set_field k (merge_value v (get k result)) result) fs

  pub merge_value : Json → Option Json → Json
  merge_value (obj new) (some (obj old)) = obj (merge_into old new)
  merge_value new _ = new

unfoldable pub merge_from : Fields → List Fields → Fields
merge_from result [] = result
merge_from result (layer ∷ layers) = merge_from (merge_into result layer) layers

unfoldable pub merge_layers : List Fields → Fields
unfolding merge_from
merge_layers = merge_from end
