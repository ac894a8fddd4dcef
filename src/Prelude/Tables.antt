-- ===== src/Prelude/Tables.antt =====
-- A table of the database, in insertion order: rows behind a primary key.
use Prim.Native.Nat.{ℕ, suc, ◌+◌}
use mathlib.Core.Path.{◌≡◌, refl, sym, subst}
use mathlib.Core.Bool.{Bool, true, false, ◌&&◌}
use mathlib.Core.Option.{Option, none, some}
use mathlib.Core.List.{List, [], ◌∷◌}
use native.Mathlib.Omega.{arith}
use porfirium.Prelude.Tests.{Uuid, if◌then◌else◌, ◌==◌, Bool-cases, ==_iff, Option-cases}
use mathlib.Core.Logic.{inl, inr}

abbrev pub Table {ℓ} : Type ℓ → Type ℓ
Table V = List (Uuid × V)

module _ {ℓ} {V : Type ℓ} where
  -- `SELECT * FROM t WHERE key=k`
  unfoldable pub lookup : Uuid → Table V → Option V
  lookup k [] = none
  lookup k ((j, v) ∷ t) = if j == k then some v else lookup k t

  -- `INSERT` at a key that is not there; at one that is, the row's new value.
  unfoldable pub put : Uuid → V → Table V → Table V
  put k v [] = (k, v) ∷ []
  put k v ((j, w) ∷ t) = if j == k then (k, v) ∷ t else (j, w) ∷ put k v t

  -- `UPDATE t SET … WHERE key=k AND p`
  unfoldable pub update_where : Uuid → (V → Bool) → (V → V) → Table V → Table V
  update_where k p f [] = []
  update_where k p f ((j, v) ∷ t) =
      if j == k then (j, if p v then f v else v) ∷ t else (j, v) ∷ update_where k p f t

  -- `SELECT count(*) FROM t WHERE p`
  unfoldable pub count : (V → Bool) → Table V → ℕ
  count p [] = 0
  count p ((j, v) ∷ t) = let rest = count p t in if p v then suc rest else rest

  abbrev pub indicator : (V → Bool) → Option V → ℕ
  indicator p none = 0
  indicator p (some v) = if p v then 1 else 0

  abbrev pub updated : (V → Bool) → (V → V) → Option V → Option V
  updated p f none = none
  updated p f (some v) = some (if p v then f v else v)

  pub lookup-put :
      (k j : Uuid) (v : V) (t : Table V)
      → lookup j (put k v t) ≡ (if k == j then some v else lookup j t)
  unfolding lookup put
  lookup-put k j v [] = refl
  lookup-put k j v ((i, w) ∷ t) = ground (arith, lookup-put k j v t)

  pub lookup-update_where :
      (k j : Uuid) (p : V → Bool) (f : V → V) (t : Table V)
      → lookup j (update_where k p f t) ≡ (if k == j then updated p f (lookup j t) else lookup j t)
  unfolding lookup update_where
  lookup-update_where k j p f [] = ground arith
  lookup-update_where k j p f ((i, w) ∷ t) = ground (arith, lookup-update_where k j p f t)

  pub count-put :
      (p : V → Bool) (k : Uuid) (v : V) (t : Table V)
      → count p (put k v t) + indicator p (lookup k t) ≡ count p t + (if p v then 1 else 0)
  unfolding count put lookup
  count-put p k v [] = ground arith
  count-put p k v ((i, w) ∷ t) = ground (arith, count-put p k v t)

  pub count-update_where :
      (q : V → Bool) (k : Uuid) (p : V → Bool) (f : V → V) (t : Table V)
      → count q (update_where k p f t) + indicator q (lookup k t)
        ≡ count q t + indicator q (updated p f (lookup k t))
  unfolding count update_where lookup
  count-update_where q k p f [] = ground arith
  count-update_where q k p f ((i, w) ∷ t) = ground (arith, count-update_where q k p f t)

  -- A predicate on every row that can be looked up, and its key.
  abbrev pub Each {κ} : (Uuid → V → Type κ) → Table V → Type (ℓ ⊔ κ)
  Each P t = (k : Uuid) (v : V) → lookup k t ≡ some v → P k v

  abbrev pub Holds {κ} : (V → Type κ) → Table V → Type (ℓ ⊔ κ)
  Holds P = Each (λ _. P)

  pub Each-put {κ} :
      (P : Uuid → V → Type κ) (k : Uuid) (v : V) (t : Table V)
      → P k v
      → Each P t
      → Each P (put k v t)
  Each-put P k v t new h j w e = elim (Bool-cases (k == j)) [
    | inl here ↦
        subst (λ i. P i w) ((==_iff k j).0 here)
          (subst (P k) (ground (arith, lookup-put k j v t)) new)
    | inr other ↦ h j w (ground (arith, lookup-put k j v t))
  ]

  pub Each-update_where {κ} :
      (P : Uuid → V → Type κ) (k : Uuid) (p : V → Bool) (f : V → V) (t : Table V)
      → ((v : V) → P k v → p v ≡ true → P k (f v))
      → Each P t
      → Each P (update_where k p f t)
  Each-update_where P k p f t keep h j w e = elim (Option-cases (lookup j t)) [
    | inl absent ↦ absurd (ground (arith, lookup-update_where k j p f t))
    | inr (v, found) ↦ elim (Bool-cases (k == j && p v)) [
      | inl changed ↦
          let same : k ≡ j = ground arith in
          subst (λ i. P i w) same
            (subst (P k) (ground (arith, lookup-update_where k j p f t))
              (keep v (subst (λ i. P i v) (sym same) (h j v found)) (ground arith)))
      | inr kept ↦ subst (P j) (ground (arith, lookup-update_where k j p f t)) (h j v found)
    ]
  ]

  pub Holds-put {κ} :
      (P : V → Type κ) (k : Uuid) (v : V) (t : Table V) → P v → Holds P t → Holds P (put k v t)
  Holds-put P = Each-put (λ _. P)

  pub Holds-update_where {κ} :
      (P : V → Type κ) (k : Uuid) (p : V → Bool) (f : V → V) (t : Table V)
      → ((v : V) → P v → p v ≡ true → P (f v))
      → Holds P t
      → Holds P (update_where k p f t)
  Holds-update_where P = Each-update_where (λ _. P)

  -- The rows with a property are the same in the new table.
  abbrev pub Frozen {κ} : (V → Type κ) → Table V → Table V → Type (ℓ ⊔ κ)
  Frozen Q old new = (k : Uuid) (v : V) → lookup k old ≡ some v → Q v → lookup k new ≡ some v

  pub Frozen-put {κ} :
      (Q : V → Type κ) (k : Uuid) (v : V) (t : Table V)
      → ((w : V) → lookup k t ≡ some w → ¬ Q w)
      → Frozen Q t (put k v t)
  Frozen-put Q k v t free j w e q = elim (Bool-cases (k == j)) [
    | inl here ↦ absurd (free w (ground arith) q)
    | inr other ↦ ground (arith, lookup-put k j v t)
  ]

  pub Frozen-update_where {κ} :
      (Q : V → Type κ) (k : Uuid) (p : V → Bool) (f : V → V) (t : Table V)
      → ((v : V) → Q v → p v ≡ false)
      → Frozen Q t (update_where k p f t)
  Frozen-update_where Q k p f t guard j w e q =
      ground (arith, lookup-update_where k j p f t, guard w q)
