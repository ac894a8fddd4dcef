-- ===== src/Runner/Retries.antt =====
-- The bound on attempts (`schedule`, `_retry_allowed` and `_handle_attempt_loss` of
-- services/agent-runner/agent_runner/service.py): through every interleaving of transactions a run
-- has at most `max_attempts` attempts.
use porfirium.Prelude.{
  ℕ, ◌≤◌, ◌<◌, ◌≡◌, refl, ◌∙◌, Bool, true, ◌&&◌, none, some, ◌∷◌, [], Uuid, ◌==◌, ltb,
  if◌then◌else◌, Table, lookup, put, update_where, lookup-update_where, Each, Each-update_where,
  arith,
}
use porfirium.Runner.State.{Run, Attempt, is_schedulable}
use porfirium.Runner.Attempts.{max_number, always}

-- The numbers of two tables of attempts are the same, row by row.
abbrev pub SameNumbers : Table Attempt → Table Attempt → Type 0
SameNumbers old new =
    ((run : Uuid) → max_number run new ≡ max_number run old)
    × ((a : Uuid) (row : Attempt)
        → lookup a old ≡ some row
        → (row' : Attempt) × (lookup a new ≡ some row')
          × (row'.run_id ≡ row.run_id)
          × (row'.attempt_number ≡ row.attempt_number))

max_number-update_where :
    (run k : Uuid) (f : Attempt → Attempt) (t : Table Attempt)
    → ((a : Attempt) → ((f a).run_id ≡ a.run_id) × ((f a).attempt_number ≡ a.attempt_number))
    → max_number run (update_where k always f t) ≡ max_number run t
unfolding max_number update_where
max_number-update_where run k f [] same = refl
max_number-update_where run k f ((j, a) ∷ t) same =
    ground (arith, same a, max_number-update_where run k f t same)

pub SameNumbers-update_where :
    (k : Uuid) (f : Attempt → Attempt) (t : Table Attempt)
    → ((a : Attempt) → ((f a).run_id ≡ a.run_id) × ((f a).attempt_number ≡ a.attempt_number))
    → SameNumbers t (update_where k always f t)
SameNumbers-update_where k f t same = (
  λ run. max_number-update_where run k f t same,
  λ a row found. (
    if k == a then f row else row,
    ground (arith, lookup-update_where k a always f t),
    ground (arith, same row),
    ground (arith, same row),
  ),
)

pub max_number-put_fresh :
    (run k : Uuid) (a : Attempt) (t : Table Attempt)
    → lookup k t ≡ none
    → max_number run (put k a t) ≡ (
        if a.run_id == run && ltb (max_number run t) a.attempt_number
        then a.attempt_number
        else max_number run t)
unfolding max_number put lookup
max_number-put_fresh run k a [] fresh = ground arith
max_number-put_fresh run k a ((j, b) ∷ t) fresh = ground (arith, max_number-put_fresh run k a t)

-- An attempt of the run with the highest number.
abbrev pub IsLatest : Table Attempt → Uuid → Uuid → Type 0
IsLatest attempts run a =
    (row : Attempt) × (lookup a attempts ≡ some row)
    × (row.run_id ≡ run)
    × (row.attempt_number ≡ max_number run attempts)

-- What holds of each run: its number of attempts is bounded, below the bound while it waits for
-- another, and its active attempt is its latest.
abbrev pub IsLimited : ℕ → Table Attempt → Uuid → Run → Type 0
IsLimited n attempts run r =
    (is_schedulable r.state ≡ true → max_number run attempts < n)
    × (max_number run attempts ≤ n)
    × ((a : Uuid) → r.active_attempt_id ≡ some a → IsLatest attempts run a)

-- Attempts belong to runs that exist.
abbrev pub IsOwned : Table Run → Table Attempt → Type 0
IsOwned runs attempts = (run : Uuid) → lookup run runs ≡ none → max_number run attempts ≡ 0

abbrev pub IsBounded : ℕ → Table Run → Table Attempt → Type 0
IsBounded n runs attempts = Each (IsLimited n attempts) runs × IsOwned runs attempts

-- The same numbers serve as well.
SameNumbers-IsLimited :
    (n : ℕ) (old new : Table Attempt) (run : Uuid) (r : Run)
    → SameNumbers old new
    → IsLimited n old run r
    → IsLimited n new run r
SameNumbers-IsLimited n old new run r same h = (
  λ s. ground (arith, same.0 run, h.0 s),
  ground (arith, same.0 run, h.1),
  λ a e.
      let (row, found, owner, number) = h.2 a e in
      let (row', found', owner', number') = same.1 a row found in
      (row', found', owner' ∙ owner, ground (arith, same.0 run)),
)

-- An update of one run, beside which the numbers of the attempts stay, keeps the bound.
pub update_where-IsBounded :
    (n : ℕ) (runs : Table Run) (attempts attempts' : Table Attempt) (run : Uuid) (p : Run → Bool)
    (f : Run → Run)
    → SameNumbers attempts attempts'
    → ((r : Run) → IsLimited n attempts' run r → p r ≡ true → IsLimited n attempts' run (f r))
    → IsBounded n runs attempts
    → IsBounded n (update_where run p f runs) attempts'
update_where-IsBounded n runs attempts attempts' run p f same keep (each, owned) = (
  Each-update_where (IsLimited n attempts') run p f runs keep
      (λ k r found. SameNumbers-IsLimited n attempts attempts' k r same (each k r found)),
  λ k absent. same.0 k ∙ owned k (ground (arith, lookup-update_where run k p f runs)),
)

-- So do new attempts with the same numbers.
pub SameNumbers-IsBounded :
    (n : ℕ) (runs : Table Run) (attempts attempts' : Table Attempt)
    → SameNumbers attempts attempts'
    → IsBounded n runs attempts
    → IsBounded n runs attempts'
SameNumbers-IsBounded n runs attempts attempts' same (each, owned) = (
  λ k r found. SameNumbers-IsLimited n attempts attempts' k r same (each k r found),
  λ k absent. same.0 k ∙ owned k absent,
)

pub SameNumbers-refl : (t : Table Attempt) → SameNumbers t t
SameNumbers-refl t = (λ run. refl, λ a row found. (row, found, refl, refl))
