-- ===== src/Configuration/Precedence.antt =====
-- Which layer sets a value of the effective configuration (`merge_layers` of
-- services/configuration-service/configuration_service/domain.py).
use porfirium.Prelude.{
  ◌≡◌, true, false, some, List, [], ◌∷◌, ◌++◌, Text, Json, Fields, obj, end, is_object, is_dict,
  are_fields, All,
}
use porfirium.Configuration.Documents.{merge_into, merge_value, merge_from, merge_layers}
use porfirium.Configuration.Layers.{at, untouched, leaf_wins, kept}

-- A later layer that leaves the path alone.
abbrev pub IsSilent : List Text → Fields → Type 0
IsSilent path layer = (are_fields layer ≡ true) × (untouched path (obj layer) ≡ true)

merge_into-leaf :
    (path : List Text) (result layer : Fields) (v : Json)
    → are_fields layer ≡ true
    → at path (obj layer) ≡ some v
    → is_object v ≡ false
    → at path (obj (merge_into result layer)) ≡ some v
unfolding merge_value is_dict
merge_into-leaf path result layer v d h leaf =
    leaf_wins path (obj layer) (some (obj result)) v d h leaf

merge_from-kept :
    (path : List Text) (result : Fields) (layers : List Fields) (v : Json)
    → at path (obj result) ≡ some v
    → All (IsSilent path) layers
    → at path (obj (merge_from result layers)) ≡ some v
unfolding merge_from merge_value is_dict
merge_from-kept path result [] v h quiet = h
merge_from-kept path result (layer ∷ layers) v h ((d, free), quiet) =
    merge_from-kept path (merge_into result layer) layers v
      (kept path (obj layer) (obj result) v d h free) quiet

merge_from-wins :
    (path : List Text) (result : Fields) (before : List Fields) (layer : Fields)
    (after : List Fields) (v : Json)
    → are_fields layer ≡ true
    → at path (obj layer) ≡ some v
    → is_object v ≡ false
    → All (IsSilent path) after
    → at path (obj (merge_from result (before ++ layer ∷ after))) ≡ some v
unfolding merge_from
merge_from-wins path result [] layer after v d h leaf quiet =
    merge_from-kept path (merge_into result layer) after v
      (merge_into-leaf path result layer v d h leaf) quiet
merge_from-wins path result (b ∷ before) layer after v d h leaf quiet =
    merge_from-wins path (merge_into result b) before layer after v d h leaf quiet

-- The last layer that has a plain value at a path sets it: where a layer has a value there that is no
-- object, and the later layers have nothing at the path nor a plain value on the way to it, the merged
-- configuration has this value there, whatever the earlier layers say. Keys are unique, as in every
-- dictionary.
pub merge_layers_precedence :
    (path : List Text) (before : List Fields) (layer : Fields) (after : List Fields) (v : Json)
    → are_fields layer ≡ true
    → at path (obj layer) ≡ some v
    → is_object v ≡ false
    → All (IsSilent path) after
    → at path (obj (merge_layers (before ++ layer ∷ after))) ≡ some v
unfolding merge_layers
merge_layers_precedence path before layer after v d h leaf quiet =
    merge_from-wins path end before layer after v d h leaf quiet
