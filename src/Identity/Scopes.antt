-- ===== src/Identity/Scopes.antt =====
-- What the sets of scopes of services/identity-delegation/identity_delegation contain.
use porfirium.Prelude.{
  ◌≡◌, ◌∙◌, refl, ap, Bool, true, ◌&&◌, ◌||◌, some, List, [], ◌∷◌, Text, Json, cons, select,
  list_eq, list_eq→eq, contains, all_in, same_set, both_true, insert_text, sort_texts, distinct,
  sort_items, arith,
}
use porfirium.Identity.Claims.{hashed}
use porfirium.Identity.Service.{common, items_of}

contains-insert_text :
    (t x : Text) (ys : List Text) → contains t (insert_text x ys) ≡ list_eq x t || contains t ys
unfolding contains insert_text
contains-insert_text t x [] = ground arith
contains-insert_text t x (y ∷ ys) = ground (arith, contains-insert_text t x ys)

contains-sort_texts : (t : Text) (xs : List Text) → contains t (sort_texts xs) ≡ contains t xs
unfolding contains sort_texts
contains-sort_texts t [] = refl
contains-sort_texts t (x ∷ xs) =
    contains-insert_text t x (sort_texts xs) ∙ ap (λ b. list_eq x t || b) (contains-sort_texts t xs)

contains-distinct : (t : Text) (xs : List Text) → contains t (distinct xs) ≡ contains t xs
unfolding contains distinct
contains-distinct t [] = refl
contains-distinct t (x ∷ xs) = ground (arith, contains-distinct t xs, list_eq→eq x t)

contains-select :
    (t : Text) (p : Text → Bool) (xs : List Text) → contains t (select p xs) ≡ contains t xs && p t
unfolding contains
contains-select t p [] = refl
contains-select t p (x ∷ xs) = ground (arith, contains-select t p xs, list_eq→eq x t)

pub contains-common :
    (t : Text) (xs ys : List Text) → contains t (common xs ys) ≡ contains t xs && contains t ys
unfolding common
contains-common t xs ys =
    contains-sort_texts t (distinct (select (λ x. contains x ys) xs))
    ∙ contains-distinct t (select (λ x. contains x ys) xs)
    ∙ contains-select t (λ x. contains x ys) xs

pub contains-all_in :
    (t : Text) (xs ys : List Text)
    → all_in xs ys ≡ true
    → contains t xs ≡ true
    → contains t ys ≡ true
unfolding all_in contains
contains-all_in t [] ys h e = cc
contains-all_in t (x ∷ xs) ys h e = ground (arith, contains-all_in t xs ys, list_eq→eq x t)

pub sort_items-items_of : (ts : List Text) → sort_items (items_of ts) ≡ items_of ts
unfolding sort_items items_of
sort_items-items_of [] = refl
sort_items-items_of (t ∷ ts) = ap (cons (Json.str t)) (sort_items-items_of ts)

pub hashed-items_of : (ts : List Text) → hashed (items_of ts) ≡ some ts
unfolding hashed items_of
hashed-items_of [] = refl
hashed-items_of (t ∷ ts) = rw (hashed-items_of ts) refl

pub contains-same_set :
    (t : Text) (xs ys : List Text) → same_set xs ys ≡ true → contains t xs ≡ contains t ys
contains-same_set t xs ys h =
    let (there, back) = both_true (all_in xs ys) (all_in ys xs) h in
    ground (arith, contains-all_in t xs ys there, contains-all_in t ys xs back)

pub common-within :
    (t : Text) (xs ys : List Text) → contains t (common xs ys) ≡ true → contains t ys ≡ true
common-within t xs ys h = ground (arith, contains-common t xs ys)
