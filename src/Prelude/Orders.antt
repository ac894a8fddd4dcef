-- ===== src/Prelude/Orders.antt =====
-- Texts and the keys of JSON objects in order, as Python's `sorted`, `set` and `sort_keys` have them.
use mathlib.Core.Path.{◌≡◌, refl}
use mathlib.Core.Bool.{Bool, true, false, ◌&&◌, ◌||◌}
use mathlib.Core.Option.{Option, none, some}
use mathlib.Core.List.{List, [], ◌∷◌}
use native.Mathlib.Omega.{arith}
use porfirium.Prelude.Tests.{if◌then◌else◌, ◌==◌, ltb}
use porfirium.Prelude.Lists.{list_eq, list_eq_refl}
use porfirium.Prelude.Texts.{
  Text, Json, Items, Fields, obj, arr, nil, cons, end, field, get, list_eq→eq,
}

-- `a <= b` of texts, by code points.
unfoldable pub text_leb : Text → Text → Bool
text_leb [] b = true
text_leb (x ∷ a) [] = false
text_leb (x ∷ a) (y ∷ b) = ltb x y || x == y && text_leb a b

pub text_leb_refl : (a : Text) → text_leb a a ≡ true
unfolding text_leb
text_leb_refl [] = refl
text_leb_refl (x ∷ a) = ground (arith, text_leb_refl a)

-- `x in xs`
unfoldable pub contains : Text → List Text → Bool
contains x [] = false
contains x (y ∷ ys) = list_eq y x || contains x ys

-- `set(xs) <= set(ys)`
unfoldable pub all_in : List Text → List Text → Bool
all_in [] ys = true
all_in (x ∷ xs) ys = contains x ys && all_in xs ys

-- `set(xs) == set(ys)`
abbrev pub same_set : List Text → List Text → Bool
same_set xs ys = all_in xs ys && all_in ys xs

unfoldable pub insert_text : Text → List Text → List Text
insert_text x [] = x ∷ []
insert_text x (y ∷ ys) =
    let rest = insert_text x ys in if text_leb x y then x ∷ y ∷ ys else y ∷ rest

-- `sorted(xs)`
unfoldable pub sort_texts : List Text → List Text
sort_texts [] = []
sort_texts (x ∷ xs) = insert_text x (sort_texts xs)

-- The elements of `set(xs)`, once each.
unfoldable pub distinct : List Text → List Text
distinct [] = []
distinct (x ∷ xs) = let rest = distinct xs in if contains x xs then rest else x ∷ rest

-- `field` put among fields that are in the order of their keys.
unfoldable pub insert_field : Text → Json → Fields → Fields
insert_field k v end = field k v end
insert_field k v (field j w fs) =
    let rest = insert_field k v fs in
    if text_leb k j then field k v (field j w fs) else field j w rest

-- The value with the keys of all its dictionaries in order.
unfoldable mutual
  pub sort_keys : Json → Json
  sort_keys (obj fs) = obj (sort_fields fs)
  sort_keys (arr xs) = arr (sort_items xs)
  sort_keys v = v

  pub sort_items : Items → Items
  sort_items nil = nil
  sort_items (cons x xs) = cons (sort_keys x) (sort_items xs)

  pub sort_fields : Fields → Fields
  sort_fields end = end
  sort_fields (field k v fs) = insert_field k (sort_keys v) (sort_fields fs)

get-insert_field :
    (k j : Text) (v : Json) (fs : Fields)
    → get j (insert_field k v fs) ≡ (if list_eq k j then some v else get j fs)
unfolding get insert_field
get-insert_field k j v end = refl
get-insert_field k j v (field i w fs) = ground (
  arith,
  get-insert_field k j v fs,
  list_eq→eq i k,
  list_eq→eq i j,
  list_eq→eq k j,
  list_eq_refl i,
  list_eq_refl j,
  list_eq_refl k,
  text_leb_refl k,
)

abbrev pub sorted_value : Option Json → Option Json
sorted_value none = none
sorted_value (some v) = some (sort_keys v)

-- Sorting keeps what each key holds.
pub get-sort_fields : (k : Text) (fs : Fields) → get k (sort_fields fs) ≡ sorted_value (get k fs)
unfolding get sort_fields
get-sort_fields k end = refl
get-sort_fields k (field j v fs) =
    ground (arith, get-insert_field j k (sort_keys v) (sort_fields fs), get-sort_fields k fs)
