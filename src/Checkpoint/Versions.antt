-- ===== src/Checkpoint/Versions.antt =====
-- The versions of a thread (services/checkpoint-api/checkpoint_api/store.py): in the order of
-- insertion they are 1, 2, 3, … with no gap and no repetition.
use porfirium.Prelude.{
  ℕ, zero, suc, ◌+◌, ◌≡◌, refl, ap, ◌∙◌, ◌⊎◌, inl, inr, none, List, [], ◌∷◌, ◌++◌, Uuid, Key, Time,
  ◌==◌, ltb, if◌then◌else◌, length, length-append, Table, lookup, put, Option-cases, Bool-cases, ok,
  arith,
}
use mathlib.Core.Path.{ap₂}
use native.Mathlib.Nat.{add_comm}
use porfirium.Checkpoint.Store.{
  Capability, Checkpoint, CheckpointRecord, Store, PutRequest, find_replay, new_row, max_version,
  insert_checkpoint, replayed, commit, put_checkpoint,
}

-- The versions of a thread's rows, oldest row first.
unfoldable pub versions : Uuid → Table Checkpoint → List ℕ
versions thread [] = []
versions thread ((_, row) ∷ rows) =
    let rest = versions thread rows in if row.thread_id == thread then row.version ∷ rest else rest

-- first, first + 1, …, n of them
abbrev pub counting : ℕ → ℕ → List ℕ
counting first zero = []
counting first (suc n) = first ∷ counting (first + 1) n

abbrev pub IsGapless : List ℕ → Type 0
IsGapless vs = vs ≡ counting 1 (length vs)

abbrev pub IsConsistent : Store → Type 0
IsConsistent s = (thread : Uuid) → IsGapless (versions thread s.checkpoints)

-- The greatest of the numbers, 0 of none.
greatest : List ℕ → ℕ
greatest [] = 0
greatest (v ∷ vs) = let rest = greatest vs in if ltb rest v then v else rest

max_version-greatest :
    (thread : Uuid) (rows : Table Checkpoint)
    → max_version thread rows ≡ greatest (versions thread rows)
unfolding max_version versions greatest
max_version-greatest thread [] = refl
max_version-greatest thread ((id, row) ∷ rows) = ground (arith, max_version-greatest thread rows)

greatest-counting : (first n : ℕ) → greatest (counting first (suc n)) ≡ first + n
unfolding greatest
greatest-counting first zero = ground arith
greatest-counting first (suc n) = ground (arith, greatest-counting (first + 1) n)

counting-suc : (first n : ℕ) → counting first n ++ (first + n) ∷ [] ≡ counting first (suc n)
counting-suc first zero = ground arith
counting-suc first (suc n) = ground (arith, counting-suc (first + 1) n)

length-counting : (first n : ℕ) → length (counting first n) ≡ n
length-counting first zero = refl
length-counting first (suc n) = omega (arith, length-counting (first + 1) n)

versions-put_fresh :
    (thread id : Uuid) (row : Checkpoint) (rows : Table Checkpoint)
    → lookup id rows ≡ none
    → versions thread (put id row rows) ≡ (
        if row.thread_id == thread
        then versions thread rows ++ row.version ∷ []
        else versions thread rows)
unfolding versions put lookup
versions-put_fresh thread id row [] h = ground arith
versions-put_fresh thread id row ((j, w) ∷ rows) h =
    ground (arith, versions-put_fresh thread id row rows)

greatest-gapless : (n : ℕ) → greatest (counting 1 n) ≡ n
unfolding greatest
greatest-gapless zero = refl
greatest-gapless (suc n) = omega (arith, greatest-counting 1 n)

-- The highest version of a gapless thread is the number of its checkpoints.
pub max_version-gapless :
    (thread : Uuid) (rows : Table Checkpoint)
    → IsGapless (versions thread rows)
    → max_version thread rows ≡ length (versions thread rows)
max_version-gapless thread rows g =
    max_version-greatest thread rows
    ∙ ap greatest g
    ∙ greatest-gapless (length (versions thread rows))

-- The next number after a gapless sequence extends it.
snoc-IsGapless : (vs : List ℕ) (v : ℕ) → IsGapless vs → v ≡ length vs + 1 → IsGapless (vs ++ v ∷ [])
snoc-IsGapless vs v g next =
    ap₂ (λ (xs : List ℕ) (x : ℕ). xs ++ x ∷ []) g (next ∙ add_comm (length vs) 1)
    ∙ counting-suc 1 (length vs)
    ∙ ap (counting 1) {x = suc (length vs)} (omega (arith, length-append vs (v ∷ [])))

-- A row with the next version keeps every thread gapless.
put-IsGapless :
    (thread id : Uuid) (row : Checkpoint) (rows : Table Checkpoint)
    → lookup id rows ≡ none
    → row.version ≡ max_version row.thread_id rows + 1
    → ((t : Uuid) → IsGapless (versions t rows))
    → IsGapless (versions thread (put id row rows))
put-IsGapless thread id row rows fresh next g = elim (Bool-cases (row.thread_id == thread)) [
  | inl same ↦
      rw (versions-put_fresh thread id row rows fresh, same)
        (snoc-IsGapless _ _ (g thread)
          (ground (arith, next, max_version-gapless row.thread_id rows (g row.thread_id))))
  | inr other ↦ rw (versions-put_fresh thread id row rows fresh, other) (g thread)
]

module _ (cause : Key → Uuid) where
  -- What a successful put did to the table of checkpoints: nothing, or one row at an unused id.
  pub put_checkpoint-rows :
      (c : Capability) (q : PutRequest) (event_id : Uuid) (now : Time) (s s' : Store)
      {r : CheckpointRecord}
      → put_checkpoint cause c q event_id now s ≡ ok (r, s')
      → let row = new_row c q now (max_version c.thread_id s.checkpoints + 1) in
        (s'.checkpoints ≡ s.checkpoints)
        ⊎ ((lookup q.checkpoint_id s.checkpoints ≡ none)
            × (s'.checkpoints ≡ put q.checkpoint_id row s.checkpoints))
  unfolding put_checkpoint commit replayed insert_checkpoint
  put_checkpoint-rows c q event_id now s s' e =
      elim (Option-cases (find_replay c.run_id q.idempotency_key s.idempotency)) [
        | inl n ↦ inr (ground arith, ground arith)
        | inr (r, h) ↦ inl (ground arith)
      ]

  -- A put that succeeds keeps the versions of every thread gapless.
  pub put_checkpoint-IsConsistent :
      (c : Capability) (q : PutRequest) (event_id : Uuid) (now : Time) (s s' : Store)
      {r : CheckpointRecord}
      → IsConsistent s
      → put_checkpoint cause c q event_id now s ≡ ok (r, s')
      → IsConsistent s'
  unfolding new_row
  put_checkpoint-IsConsistent c q event_id now s s' g e thread =
      elim (put_checkpoint-rows c q event_id now s s' e) [
        | inl same ↦ rw same (g thread)
        | inr (fresh, new) ↦
            rw new (put-IsGapless thread q.checkpoint_id _ s.checkpoints fresh refl g)
      ]
