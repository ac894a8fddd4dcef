-- ===== src/Runner/Repair.antt =====
-- What the loop of `reconcile` (services/agent-runner/agent_runner/service.py) does to one run.
use porfirium.Prelude.{
  ℕ, ◌+◌, ◌<◌, ◌≡◌, refl, ap, ◌∙◌, ◌⊎◌, inl, inr, Bool, true, false, none, some, List, [], ◌∷◌,
  Uuid, Time, ◌==◌, lookup, lookup-put, lookup-update_where, update_where, Table, Bool-cases,
  Option-cases, arith, if◌then◌else◌, not, ◌&&◌,
}
use mathlib.Core.Path.{subst}
use porfirium.Runner.State.{Run, Attempt, RunState, Db, Event, enqueue}
use porfirium.Runner.Attempts.{active_is}
use porfirium.Runner.Loss.{
  Candidate, handle_attempt_loss, retry_allowed, enqueue_lost, reschedule, give_up, is_reconcilable,
  candidates, container_runs, repair, reconcile,
}

-- The primary key of a table.
abbrev pub HasKeys {ℓ} : {V : Type ℓ} → Table V → Type ℓ
HasKeys [] = Unit
HasKeys ((k, v) ∷ t) = (lookup k t ≡ none) × HasKeys t

pub HasKeys-update_where {ℓ} :
    {V : Type ℓ} (k : Uuid) (p : V → Bool) (f : V → V) (t : Table V)
    → HasKeys t
    → HasKeys (update_where k p f t)
unfolding update_where
HasKeys-update_where k p f [] h = tt
HasKeys-update_where k p f ((j, v) ∷ t) (fresh, h) = elim (Bool-cases (j == k)) [
  | inl same ↦ rw same (fresh, h)
  | inr other ↦
      rw other (ground (arith, lookup-update_where k j p f t), HasKeys-update_where k p f t h)
]

-- The row of a run whose attempt is lost and tried again.
abbrev pub rescheduled : Time → Run → Run
rescheduled now r = record r {
  state = RunState.scheduled;
  active_attempt_id = none;
  updated_at = now;
}

lookup-update_other {ℓ} :
    {V : Type ℓ} (k j : Uuid) (p : V → Bool) (f : V → V) (t : Table V)
    → (k == j) ≡ false
    → lookup j (update_where k p f t) ≡ lookup j t
lookup-update_other k j p f t other = ground (arith, lookup-update_where k j p f t)

handle_attempt_loss-other :
    (n : ℕ) (c : Candidate) (e : Uuid) (now : Time) (d : Db) (run : Uuid)
    → (c.run_id == run) ≡ false
    → lookup run (handle_attempt_loss n c e now d).runs ≡ lookup run d.runs
unfolding handle_attempt_loss reschedule give_up
handle_attempt_loss-other n c e now d run other =
    elim (Bool-cases (
      not c.attempt.visible_output
      && retry_allowed c.attempt.attempt_number c.run.deadline_at n now)) [
        | inl again ↦ rw again (lookup-update_other c.run_id run _ _ d.runs other)
        | inr lost ↦ rw lost (lookup-update_other c.run_id run _ _ d.runs other)
      ]

pub lookup-enqueue_other :
    (i j : Uuid) (e : Event) (t : Table Event)
    → (i == j) ≡ false
    → lookup j t ≡ none
    → lookup j (enqueue i e t) ≡ none
unfolding enqueue
lookup-enqueue_other i j e t other absent = ground (arith, lookup-put i j e t)

handle_attempt_loss-outbox :
    (n : ℕ) (c : Candidate) (e : Uuid) (now : Time) (d : Db) (i : Uuid)
    → (e == i) ≡ false
    → lookup i d.outbox ≡ none
    → lookup i (handle_attempt_loss n c e now d).outbox ≡ none
unfolding handle_attempt_loss enqueue_lost
handle_attempt_loss-outbox n c e now d i other absent =
    elim (Bool-cases (
      not c.attempt.visible_output
      && retry_allowed c.attempt.attempt_number c.run.deadline_at n now)) [
        | inl again ↦ rw again absent
        | inr lost ↦ elim (Option-cases c.attempt.active_message_id) [
          | inl silent ↦ rw (lost, silent) absent
          | inr (m, told) ↦ rw (lost, told) (lookup-enqueue_other e i _ d.outbox other absent)
        ]
      ]

handle_attempt_loss-again :
    (n : ℕ) (c : Candidate) (e : Uuid) (now : Time) (d : Db) (r : Run)
    → lookup c.run_id d.runs ≡ some r
    → r.active_attempt_id ≡ some c.attempt_id
    → c.attempt.visible_output ≡ false
    → c.attempt.attempt_number < n
    → now < c.run.deadline_at
    → lookup c.run_id (handle_attempt_loss n c e now d).runs ≡ some (rescheduled now r)
unfolding handle_attempt_loss reschedule retry_allowed
handle_attempt_loss-again n c e now d r found active silent retries ahead =
    let again : (not c.attempt.visible_output
          && retry_allowed c.attempt.attempt_number c.run.deadline_at n now)
        ≡ true =
      ground arith in
    rw again (
      ground (
        arith,
        lookup-update_where c.run_id c.run_id (active_is c.attempt_id) (rescheduled now) d.runs,
      ))

-- No candidate is of the run.
abbrev Avoids : Uuid → List Candidate → Type 0
Avoids run [] = Unit
Avoids run (c ∷ cs) = ((c.run_id == run) ≡ false) × Avoids run cs

-- One candidate is of its run, and it is this one.
abbrev IsOnly : Candidate → List Candidate → Type 0
IsOnly c [] = ⊥
IsOnly c (x ∷ xs) =
    ((x ≡ c) × Avoids c.run_id xs) ⊎ (((x.run_id == c.run_id) ≡ false) × IsOnly c xs)

candidates-Avoids :
    (run : Uuid) (rows : Table Run) (attempts : Table Attempt)
    → lookup run rows ≡ none
    → Avoids run (candidates rows attempts)
unfolding candidates lookup
candidates-Avoids run [] attempts absent = tt
candidates-Avoids run ((id, r) ∷ rows) attempts absent =
    let other : (id == run) ≡ false = ground arith in
    let rest = candidates-Avoids run rows attempts (ground arith) in
    elim (Option-cases r.active_attempt_id) [
      | inl idle ↦ rw idle rest
      | inr (a, active) ↦ elim (Option-cases (lookup a attempts)) [
        | inl lost ↦ rw (active, lost) rest
        | inr (row, kept) ↦ elim (Bool-cases (is_reconcilable r.state)) [
          | inl live ↦ rw (active, kept, live) (other, rest)
          | inr ended ↦ rw (active, kept, ended) rest
        ]
      ]
    ]

-- The run with its active attempt is a candidate, once.
candidates-IsOnly :
    (c : Candidate) (rows : Table Run) (attempts : Table Attempt)
    → HasKeys rows
    → lookup c.run_id rows ≡ some c.run
    → c.run.active_attempt_id ≡ some c.attempt_id
    → lookup c.attempt_id attempts ≡ some c.attempt
    → is_reconcilable c.run.state ≡ true
    → IsOnly c (candidates rows attempts)
unfolding candidates lookup
candidates-IsOnly c [] attempts keys found active kept live = absurd (ground arith)
candidates-IsOnly c ((id, r) ∷ rows) attempts (unique, keys) found active kept live =
    elim (Bool-cases (id == c.run_id)) [
      | inl here ↦
          let same : id ≡ c.run_id = ground arith in
          let row : r ≡ c.run = ground arith in
          let busy : r.active_attempt_id ≡ some c.attempt_id = rw row active in
          let moving : is_reconcilable r.state ≡ true = rw row live in
          let rest =
            candidates-Avoids c.run_id rows attempts
              (subst (λ j. lookup j rows ≡ none) same unique) in
          rw (busy, kept, moving) (inl (rw (same, row) refl, rest))
      | inr other ↦
          let rest = candidates-IsOnly c rows attempts keys (ground arith) active kept live in
          elim (Option-cases r.active_attempt_id) [
            | inl idle ↦ rw idle rest
            | inr (a, busy) ↦ elim (Option-cases (lookup a attempts)) [
              | inl lost ↦ rw (busy, lost) rest
              | inr (row, known) ↦ elim (Bool-cases (is_reconcilable r.state)) [
                | inl moving ↦ rw (busy, known, moving) (inr (other, rest))
                | inr ended ↦ rw (busy, known, ended) rest
              ]
            ]
          ]
    ]

module _ (n : ℕ) (runs : Uuid → Bool) (fresh : Uuid → Uuid) (now : Time) where
  repair-up :
      (c : Candidate) (cs : List Candidate) (k : ℕ) (d : Db)
      → container_runs runs c ≡ true
      → repair n runs fresh now (c ∷ cs) (k, d) ≡ repair n runs fresh now cs (k, d)
  unfolding repair
  repair-up c cs k d up =
      ap
        (λ b.
          repair n runs fresh now cs
            (if b then (k, d) else (k + 1, handle_attempt_loss n c (fresh c.attempt_id) now d)))
        up

  repair-gone :
      (c : Candidate) (cs : List Candidate) (k : ℕ) (d : Db)
      → container_runs runs c ≡ false
      → repair n runs fresh now (c ∷ cs) (k, d)
        ≡ repair n runs fresh now cs (k + 1, handle_attempt_loss n c (fresh c.attempt_id) now d)
  unfolding repair
  repair-gone c cs k d gone =
      ap
        (λ b.
          repair n runs fresh now cs
            (if b then (k, d) else (k + 1, handle_attempt_loss n c (fresh c.attempt_id) now d)))
        gone

  repair-Avoids :
      (run : Uuid) (cs : List Candidate) (k : ℕ) (d : Db)
      → Avoids run cs
      → lookup run (repair n runs fresh now cs (k, d)).1.runs ≡ lookup run d.runs
  unfolding repair
  repair-Avoids run [] k d h = refl
  repair-Avoids run (c ∷ cs) k d (other, h) = elim (Bool-cases (container_runs runs c)) [
    | inl up ↦ rw (repair-up c cs k d up) (repair-Avoids run cs k d h)
    | inr gone ↦
        rw
          (
            repair-gone c cs k d gone,
            repair-Avoids run cs (k + 1) (handle_attempt_loss n c (fresh c.attempt_id) now d) h,
          )
          (handle_attempt_loss-other n c (fresh c.attempt_id) now d run other)
  ]

  repair-IsOnly :
      (c : Candidate) (r : Run) (cs : List Candidate) (k : ℕ) (d : Db)
      → container_runs runs c ≡ false
      → r.active_attempt_id ≡ some c.attempt_id
      → c.attempt.visible_output ≡ false
      → c.attempt.attempt_number < n
      → now < c.run.deadline_at
      → IsOnly c cs
      → lookup c.run_id d.runs ≡ some r
      → lookup c.run_id (repair n runs fresh now cs (k, d)).1.runs ≡ some (rescheduled now r)
  unfolding repair
  repair-IsOnly c r [] k d gone active silent retries ahead h found = elim h [ ]
  repair-IsOnly c r (x ∷ xs) k d gone active silent retries ahead (inl (same, h)) found =
      let lost = handle_attempt_loss n c (fresh c.attempt_id) now d in
      rw
        (
          ap (λ y. repair n runs fresh now (y ∷ xs) (k, d)) same,
          repair-gone c xs k d gone,
          repair-Avoids c.run_id xs (k + 1) lost h,
        )
        (handle_attempt_loss-again n c (fresh c.attempt_id) now d r found active silent retries
          ahead)
  repair-IsOnly c r (x ∷ xs) k d gone active silent retries ahead (inr (other, h)) found =
      elim (Bool-cases (container_runs runs x)) [
        | inl up ↦
            rw (repair-up x xs k d up)
              (repair-IsOnly c r xs k d gone active silent retries ahead h found)
        | inr down ↦ rw (repair-gone x xs k d down) (
            repair-IsOnly c r xs (k + 1) (handle_attempt_loss n x (fresh x.attempt_id) now d) gone
              active silent retries ahead h
              (handle_attempt_loss-other n x (fresh x.attempt_id) now d c.run_id other ∙ found))
      ]

  repair-outbox :
      (i : Uuid) (cs : List Candidate) (k : ℕ) (d : Db)
      → ((a : Uuid) → (fresh a == i) ≡ false)
      → lookup i d.outbox ≡ none
      → lookup i (repair n runs fresh now cs (k, d)).1.outbox ≡ none
  unfolding repair
  repair-outbox i [] k d new absent = absent
  repair-outbox i (c ∷ cs) k d new absent = elim (Bool-cases (container_runs runs c)) [
    | inl up ↦ rw (repair-up c cs k d up) (repair-outbox i cs k d new absent)
    | inr gone ↦ rw (repair-gone c cs k d gone) (
        repair-outbox i cs (k + 1) (handle_attempt_loss n c (fresh c.attempt_id) now d) new
          (handle_attempt_loss-outbox n c (fresh c.attempt_id) now d i (new c.attempt_id) absent))
  ]

  -- What `reconcile` makes of a run whose container is gone, where its attempt may be tried again.
  pub reconcile-again :
      (managed : List (Uuid × Uuid)) (c : Candidate) (d : Db)
      → HasKeys d.runs
      → lookup c.run_id d.runs ≡ some c.run
      → c.run.active_attempt_id ≡ some c.attempt_id
      → lookup c.attempt_id d.attempts ≡ some c.attempt
      → is_reconcilable c.run.state ≡ true
      → container_runs runs c ≡ false
      → c.attempt.visible_output ≡ false
      → c.attempt.attempt_number < n
      → now < c.run.deadline_at
      → lookup c.run_id (reconcile n runs fresh managed now d).2.runs ≡ some (rescheduled now c.run)
  unfolding reconcile
  reconcile-again managed c d keys found active kept live gone silent retries ahead =
      repair-IsOnly c c.run (candidates d.runs d.attempts) 0 d gone active silent retries ahead
        (candidates-IsOnly c d.runs d.attempts keys found active kept live) found

  pub reconcile-outbox :
      (managed : List (Uuid × Uuid)) (i : Uuid) (d : Db)
      → ((a : Uuid) → (fresh a == i) ≡ false)
      → lookup i d.outbox ≡ none
      → lookup i (reconcile n runs fresh managed now d).2.outbox ≡ none
  unfolding reconcile
  reconcile-outbox managed i d new absent =
      repair-outbox i (candidates d.runs d.attempts) 0 d new absent
