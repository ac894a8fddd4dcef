-- ===== src/Prelude/Texts.antt =====
-- Texts as lists of code points, and JSON values. An object is a list of fields in insertion order,
-- as a Python dictionary is.
use Prim.Native.Nat.{ℕ}
use Prim.Native.Char.{code}
use Prim.Native.String.{String}
use mathlib.Core.Path.{◌≡◌, refl}
use mathlib.Core.Bool.{Bool, true, false, ◌&&◌}
use mathlib.Core.Option.{Option, none, some}
use mathlib.Core.List.{List, [], ◌∷◌}
use native.Mathlib.Omega.{arith}
use porfirium.Prelude.Tests.{if◌then◌else◌, is_none}
use porfirium.Prelude.Lists.{list_eq, list_eq_refl}

abbrev pub Text : Type 0
Text = List ℕ

pub list_eq→eq : (xs ys : Text) → list_eq xs ys ≡ true → xs ≡ ys
list_eq→eq [] [] h = refl
list_eq→eq [] (y ∷ ys) h = cc
list_eq→eq (x ∷ xs) [] h = cc
list_eq→eq (x ∷ xs) (y ∷ ys) h = ground (arith, list_eq→eq xs ys)

-- A number that is no natural number, by its literal.
mutual
  pub data Json : Type 0 where
    null : Json
    bool : Bool → Json
    nat : ℕ → Json
    number : Text → Json
    str : Text → Json
    arr : Items → Json
    obj : Fields → Json

  pub data Items : Type 0 where
    nil : Items
    cons : Json → Items → Items

  pub data Fields : Type 0 where
    end : Fields
    field : Text → Json → Fields → Fields

abbrev pub is_object : Json → Bool
is_object (obj fs) = true
is_object _ = false

-- `fields.get(key)`
unfoldable pub get : Text → Fields → Option Json
get k end = none
get k (field j v fs) = if list_eq j k then some v else get k fs

-- `fields[key] = value`
unfoldable pub set_field : Text → Json → Fields → Fields
set_field k v end = field k v end
set_field k v (field j w fs) = if list_eq j k then field j v fs else field j w (set_field k v fs)

pub get-set_field :
    (k j : Text) (v : Json) (fs : Fields)
    → get j (set_field k v fs) ≡ (if list_eq k j then some v else get j fs)
unfolding get set_field
get-set_field k j v end = refl
get-set_field k j v (field i w fs) = ground (
  arith,
  get-set_field k j v fs,
  list_eq→eq i k,
  list_eq→eq i j,
  list_eq→eq k j,
  list_eq_refl i,
  list_eq_refl j,
  list_eq_refl k,
)

-- A dictionary has each key once, and so have the dictionaries in it.
unfoldable mutual
  pub is_dict : Json → Bool
  is_dict (obj fs) = are_fields fs
  is_dict (arr xs) = are_dicts xs
  is_dict _ = true

  pub are_dicts : Items → Bool
  are_dicts nil = true
  are_dicts (cons x xs) = is_dict x && are_dicts xs

  pub are_fields : Fields → Bool
  are_fields end = true
  are_fields (field k v fs) = is_none (get k fs) && is_dict v && are_fields fs

-- The code points of a literal.
abbrev pub codes : String → Text
codes String.[] = []
codes (String.◌∷◌ c s) = code c ∷ codes s
