-- ===== src/Configuration/Layers.antt =====
-- What `merge_layers` of services/configuration-service/configuration_service/domain.py puts at each
-- path.
use mathlib.Core.Path.{subst}
use porfirium.Prelude.{
  sym, ap, both_true, none_of, ◌≡◌, refl, ◌∙◌, ◌⊎◌, inl, inr, Bool, true, false, Option, none, some,
  List, [], ◌∷◌, list_eq, list_eq→eq, list_eq_refl, Option-cases, Bool-cases, Text, Json, Fields,
  null, bool, nat, number, str, arr, obj, end, field, is_object, get, set_field, get-set_field,
  is_dict, are_fields,
}
use porfirium.Configuration.Documents.{merge_into, merge_value}

-- The value at a path of keys.
unfoldable pub at : List Text → Json → Option Json
at [] v = some v
at (k ∷ ks) (obj fs) = elim (get k fs) [ none ↦ none | some v ↦ at ks v ]
at (k ∷ ks) _ = none

-- What a key holds after a layer, from what it held and what the layer has there.
abbrev merged : Option Json → Option Json → Option Json
merged old none = old
merged old (some v) = some (merge_value v old)

-- At the key of the layer's first field.
first_key :
    (k j : Text) (v new : Json) (result fs : Fields)
    → j ≡ k
    → get j fs ≡ none
    → new ≡ merge_value v (get j result)
    → merged (get k (set_field j new result)) (get k fs)
      ≡ merged (get k result) (get k (field j v fs))
unfolding get
first_key k j v new result fs eq absent is =
    rw (← eq, absent, get-set_field j j new result, list_eq_refl j, is) refl

-- Each key of the layer is merged on its own.
get-merge_into :
    (k : Text) (result layer : Fields)
    → are_fields layer ≡ true
    → get k (merge_into result layer) ≡ merged (get k result) (get k layer)
unfolding merge_into get are_fields
get-merge_into k result end h = refl
get-merge_into k result (field j v fs) h =
    let (front, rest_ok) = both_true _ _ h in
    let unique = none_of _ (both_true _ _ front).0 in
    get-merge_into k (set_field j (merge_value v (get j result)) result) fs rest_ok
    ∙ elim (Bool-cases (list_eq j k)) [
      | inl same ↦
          first_key k j v (merge_value v (get j result)) result fs (list_eq→eq j k same) unique refl
      | inr other ↦ rw (get-set_field j k (merge_value v (get j result)) result, other) refl
    ]

Json-object : (v : Json) → ((fs : Fields) × (v ≡ obj fs)) ⊎ (is_object v ≡ false)
Json-object (obj fs) = inl (fs, refl)
Json-object null = inr refl
Json-object (bool b) = inr refl
Json-object (nat n) = inr refl
Json-object (number n) = inr refl
Json-object (str s) = inr refl
Json-object (arr xs) = inr refl

merge_value-leaf : (v : Json) (old : Option Json) → is_object v ≡ false → merge_value v old ≡ v
unfolding merge_value
merge_value-leaf null old h = refl
merge_value-leaf (bool b) old h = refl
merge_value-leaf (nat n) old h = refl
merge_value-leaf (number n) old h = refl
merge_value-leaf (str s) old h = refl
merge_value-leaf (arr xs) old h = refl
merge_value-leaf (obj fs) old h = cc

-- What is no object is not looked into.
at-leaf : (k : Text) (ks : List Text) (v : Json) → is_object v ≡ false → at (k ∷ ks) v ≡ none
unfolding at
at-leaf k ks null h = refl
at-leaf k ks (bool b) h = refl
at-leaf k ks (nat n) h = refl
at-leaf k ks (number n) h = refl
at-leaf k ks (str s) h = refl
at-leaf k ks (arr xs) h = refl
at-leaf k ks (obj fs) h = cc

-- The values of a dictionary are dictionaries, where they are objects.
get-is_dict :
    (k : Text) (fs : Fields) (v : Json)
    → are_fields fs ≡ true
    → get k fs ≡ some v
    → is_dict v ≡ true
unfolding get are_fields
get-is_dict k end v h e = cc
get-is_dict k (field j w fs) v h e =
    let (front, rest) = both_true _ _ h in
    let here = (both_true _ _ front).1 in
    elim (Bool-cases (list_eq j k)) [
      | inl same ↦
          let eq : some w ≡ some v = rw (← e, same) refl in let eq' : w ≡ v = cc in rw (← eq') here
      | inr other ↦ get-is_dict k fs v rest (rw (← e, other) refl)
    ]

-- The layer has nothing at the path, and no value but objects on the way to it.
unfoldable pub untouched : List Text → Json → Bool
untouched [] v = false
untouched (k ∷ ks) (obj fs) = elim (get k fs) [ none ↦ true | some v ↦ untouched ks v ]
untouched (k ∷ ks) _ = false

untouched-leaf : (ks : List Text) (v : Json) → is_object v ≡ false → untouched ks v ≡ false
unfolding untouched
untouched-leaf [] v h = refl
untouched-leaf (k ∷ ks) null h = refl
untouched-leaf (k ∷ ks) (bool b) h = refl
untouched-leaf (k ∷ ks) (nat n) h = refl
untouched-leaf (k ∷ ks) (number n) h = refl
untouched-leaf (k ∷ ks) (str s) h = refl
untouched-leaf (k ∷ ks) (arr xs) h = refl
untouched-leaf (k ∷ ks) (obj fs) h = cc

at-found :
    (k : Text) (ks : List Text) (fs : Fields) (v : Json)
    → get k fs ≡ some v
    → at (k ∷ ks) (obj fs) ≡ at ks v
unfolding at
at-found k ks fs v e = rw (e, at) refl

at-absent :
    (k : Text) (ks : List Text) (fs : Fields) → get k fs ≡ none → at (k ∷ ks) (obj fs) ≡ none
unfolding at
at-absent k ks fs e = rw (e, at) refl

untouched-found :
    (k : Text) (ks : List Text) (fs : Fields) (v : Json)
    → get k fs ≡ some v
    → untouched (k ∷ ks) (obj fs) ≡ untouched ks v
unfolding untouched
untouched-found k ks fs v e = rw (e, untouched) refl

-- An object is merged with an object, and takes the place of anything else.
merge_value-cases :
    (fs : Fields) (old : Option Json)
    → ((gs : Fields) × (old ≡ some (obj gs)) × (merge_value (obj fs) old ≡ obj (merge_into gs fs)))
      ⊎ (merge_value (obj fs) old ≡ obj fs)
unfolding merge_value
merge_value-cases fs none = inr refl
merge_value-cases fs (some (obj gs)) = inl (gs, refl, refl)
merge_value-cases fs (some null) = inr refl
merge_value-cases fs (some (bool b)) = inr refl
merge_value-cases fs (some (nat n)) = inr refl
merge_value-cases fs (some (number n)) = inr refl
merge_value-cases fs (some (str s)) = inr refl
merge_value-cases fs (some (arr xs)) = inr refl

-- A value that is no object takes the place of what was at its path.
pub leaf_wins :
    (path : List Text) (new : Json) (old : Option Json) (v : Json)
    → is_dict new ≡ true
    → at path new ≡ some v
    → is_object v ≡ false
    → at path (merge_value new old) ≡ some v
unfolding at is_dict
leaf_wins [] new old v d h leaf =
    let eq : v ≡ new = cc in
    let same = merge_value-leaf new old (subst (λ x. is_object x ≡ false) eq leaf) in
    ap some (same ∙ sym eq)
leaf_wins (k ∷ ks) new old v d h leaf = elim (Json-object new) [
  | inr other ↦ rw (merge_value-leaf new old other) h
  | inl (fs, is) ↦
      let h' = subst (λ x. at (k ∷ ks) x ≡ some v) is h in
      let d' = subst (λ x. is_dict x ≡ true) is d in
      subst (λ x. at (k ∷ ks) (merge_value x old) ≡ some v) (sym is)
        (elim (merge_value-cases fs old) [
          | inr alone ↦ subst (λ x. at (k ∷ ks) x ≡ some v) (sym alone) h'
          | inl (gs, was, with) ↦
              subst (λ x. at (k ∷ ks) x ≡ some v) (sym with)
                (elim (Option-cases (get k fs)) [
                  | inl absent ↦ let gone = at-absent k ks fs absent in absurd (cc)
                  | inr (w, found) ↦
                      let ih =
                        leaf_wins ks w (get k gs) v (get-is_dict k fs w d' found)
                          (sym (at-found k ks fs w found) ∙ h') leaf in
                      at-found k ks (merge_into gs fs) (merge_value w (get k gs))
                        (get-merge_into k gs fs d' ∙ ap (merged (get k gs)) found)
                      ∙ ih
                ])
        ])
]

untouched_nil : (v : Json) → untouched [] v ≡ false
unfolding untouched
untouched_nil v = refl

-- One key down, where the merge below it is known to keep the value.
below :
    (k : Text) (ks : List Text) (fs gs : Fields) (v : Json)
    → are_fields fs ≡ true
    → at (k ∷ ks) (obj gs) ≡ some v
    → ((w o : Json)
        → get k fs ≡ some w
        → get k gs ≡ some o
        → at ks (merge_value w (some o)) ≡ some v)
    → at (k ∷ ks) (merge_value (obj fs) (some (obj gs))) ≡ some v
unfolding merge_value
below k ks fs gs v d h ih = elim (Option-cases (get k gs)) [
  | inl gone ↦ let no_value = at-absent k ks gs gone in absurd (cc)
  | inr (o, there) ↦ elim (Option-cases (get k fs)) [
    | inl absent ↦
        at-found k ks (merge_into gs fs) o
          (get-merge_into k gs fs d ∙ ap (merged (get k gs)) absent ∙ there)
        ∙ sym (at-found k ks gs o there)
        ∙ h
    | inr (w, found) ↦
        at-found k ks (merge_into gs fs) (merge_value w (some o)) (
          get-merge_into k gs fs d
          ∙ ap (merged (get k gs)) found
          ∙ ap (λ x. merged x (some w)) there)
        ∙ ih w o found there
  ]
]

-- What was at a path that the layer leaves untouched is still there.
pub kept :
    (path : List Text) (new old v : Json)
    → is_dict new ≡ true
    → at path old ≡ some v
    → untouched path new ≡ true
    → at path (merge_value new (some old)) ≡ some v
unfolding is_dict
kept [] new old v d h free = let touched = untouched_nil new in absurd (cc)
kept (k ∷ ks) new old v d h free = elim (Json-object new) [
  | inr other ↦ let touched = untouched-leaf (k ∷ ks) new other in absurd (cc)
  | inl (fs, is) ↦
      let free' = subst (λ x. untouched (k ∷ ks) x ≡ true) is free in
      let d' = subst (λ x. is_dict x ≡ true) is d in
      subst (λ x. at (k ∷ ks) (merge_value x (some old)) ≡ some v) (sym is)
        (elim (Json-object old) [
          | inr other ↦ let gone = at-leaf k ks old other in absurd (cc)
          | inl (gs, was) ↦
              let h' = subst (λ x. at (k ∷ ks) x ≡ some v) was h in
              subst (λ x. at (k ∷ ks) (merge_value (obj fs) (some x)) ≡ some v) (sym was)
                (below k ks fs gs v d' h' (λ w o found there.
                  kept ks w o v (get-is_dict k fs w d' found) (sym (at-found k ks gs o there) ∙ h')
                    (sym (untouched-found k ks fs w found) ∙ free')))
        ])
]
