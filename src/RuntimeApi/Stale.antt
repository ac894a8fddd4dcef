-- ===== src/RuntimeApi/Stale.antt =====
-- A newer lease shuts out the older ones (services/agent-runtime-api/agent_runtime_api/runtime.py).
use mathlib.Core.Path.{subst}
use porfirium.Prelude.{
  ℕ, ◌≤◌, ◌<◌, ◌≡◌, ◌∙◌, ap, sym, ◌⊎◌, inl, inr, true, Option, none, some, Uuid, Time, ◌==◌, ltb,
  Table, lookup, put, lookup-put, ok, err, Result-cases, Option-cases, Bool-cases, arith,
}
use porfirium.RuntimeApi.State.{Error, RunCapability, AgentFrame, Attempt, Db}
use porfirium.RuntimeApi.Events.{Library}
use porfirium.RuntimeApi.Accept.{attempt_of, activate, accept, accept_payload}
use porfirium.RuntimeApi.Effects.{
  activate-effect, accept-effect, reserve-keeps, complete_invocation-keeps,
}
use porfirium.RuntimeApi.Steps.{
  System, Step, activates, accepts, reserves, completes, Steps, here, next,
}

-- The run has a row whose lease is not older than `epoch`.
abbrev pub HasLease : Uuid → ℕ → Table Attempt → Type 0
HasLease run epoch attempts =
    (row : Attempt) × (lookup run attempts ≡ some row) × (epoch ≤ row.lease_epoch)

HasLease-put :
    (run k : Uuid) (epoch : ℕ) (new : Attempt) (t : Table Attempt)
    → HasLease run epoch t
    → ((row : Attempt) → lookup k t ≡ some row → row.lease_epoch ≤ new.lease_epoch)
    → HasLease run epoch (put k new t)
HasLease-put run k epoch new t (row, found, old) newer = elim (Bool-cases (k == run)) [
  | inl same ↦
      let eq : k ≡ run = ground arith in
      let up = newer row (ap (λ x. lookup x t) eq ∙ found) in
      (new, ground (arith, lookup-put k run new t), omega arith)
  | inr other ↦ (row, ground (arith, lookup-put k run new t), old)
]

newer_lease :
    (c : RunCapability) (d : Db) (row : Attempt)
    → lookup c.run_id d.attempts ≡ some row
    → (lookup c.run_id d.attempts ≡ none)
      ⊎ ((r : Attempt) × (lookup c.run_id d.attempts ≡ some r)
          × (ltb r.lease_epoch c.lease_epoch ≡ true))
    → row.lease_epoch ≤ c.lease_epoch
newer_lease c d row found (inl absent) = ground arith
newer_lease c d row found (inr (r, there, older)) = ground arith

activate-HasLease :
    (c : RunCapability) (now : Time) (d d' : Db) (r : ℕ) (run : Uuid) (epoch : ℕ)
    → activate c now d ≡ ok (r, d')
    → HasLease run epoch d.attempts
    → HasLease run epoch d'.attempts
activate-HasLease c now d d' r run epoch e h = elim (activate-effect c now d d' r e) [
  | inl (last, attempts, frames, invocations, newer) ↦ subst (HasLease run epoch) (sym attempts) (
      HasLease-put run c.run_id epoch (attempt_of c now last) d.attempts h
        (λ row found. newer_lease c d row found newer))
  | inr (same, row) ↦ subst (λ (x : Db). HasLease run epoch x.attempts) (sym same) h
]

activate-lease :
    (c : RunCapability) (now : Time) (d d' : Db) (r : ℕ)
    → activate c now d ≡ ok (r, d')
    → HasLease c.run_id c.lease_epoch d'.attempts
activate-lease c now d d' r e = elim (activate-effect c now d d' r e) [
  | inl (last, attempts, frames, invocations, newer) ↦ (
    attempt_of c now last,
    ap (lookup c.run_id) attempts
        ∙ ground (arith, lookup-put c.run_id c.run_id (attempt_of c now last) d.attempts),
    omega arith,
  )
  | inr (same, (row, found, lease, attempt)) ↦
      (row, ap (λ (x : Db). lookup c.run_id x.attempts) same ∙ found, omega arith)
]

module _ (l : Library) where
  accept-HasLease :
      (c : RunCapability) (frame : AgentFrame) (id : Uuid) (now : Time) (d d' : Db)
      (r : Option Uuid) (run : Uuid) (epoch : ℕ)
      → accept l c frame id now d ≡ ok (r, d')
      → HasLease run epoch d.attempts
      → HasLease run epoch d'.attempts
  accept-HasLease c frame id now d d' r run epoch e h =
      let (p, given, effect) = accept-effect l c frame id now d d' r e in
      elim effect [
        | inr (same, old) ↦ subst (λ (x : Db). HasLease run epoch x.attempts) (sym same) h
        | inl (row, found, lease, fresh, number, attempts, frames, invocations) ↦
            subst (HasLease run epoch) (sym attempts)
              (HasLease-put run c.run_id epoch _ d.attempts h (λ other there. ground arith))
      ]

  Step-HasLease :
      (s t : System) (run : Uuid) (epoch : ℕ)
      → Step l s t
      → HasLease run epoch s.db.attempts
      → HasLease run epoch t.db.attempts
  Step-HasLease s t run epoch (activates c now r e opened) h =
      activate-HasLease c now s.db t.db r run epoch e h
  Step-HasLease s t run epoch (accepts c frame id now r opened e same) h =
      accept-HasLease c frame id now s.db t.db r run epoch e h
  Step-HasLease s t run epoch (reserves gateway c call r opened e same) h =
      subst (HasLease run epoch) (sym (reserve-keeps l gateway c call s.db t.db r e).0) h
  Step-HasLease s t run epoch (completes c i answer r e same) h =
      subst (HasLease run epoch) (sym (complete_invocation-keeps l c i answer s.db t.db r e).0) h

  Steps-HasLease :
      (s t : System) (run : Uuid) (epoch : ℕ)
      → Steps l s t
      → HasLease run epoch s.db.attempts
      → HasLease run epoch t.db.attempts
  Steps-HasLease s t run epoch here h = h
  Steps-HasLease s t run epoch (next {m = m} earlier step) h =
      Step-HasLease m t run epoch step (Steps-HasLease s m run epoch earlier h)

  accept_needs_lease :
      (c : RunCapability) (frame : AgentFrame) (id : Uuid) (now : Time) (d d' : Db)
      (r : Option Uuid) (row : Attempt)
      → accept l c frame id now d ≡ ok (r, d')
      → lookup c.run_id d.attempts ≡ some row
      → c.lease_epoch < row.lease_epoch
      → ⊥
  unfolding accept accept_payload
  accept_needs_lease c frame id now d d' r row e found newer = elim (Option-cases frame.payload) [
    | inl absent ↦ ground arith
    | inr (p, given) ↦ ground arith
  ]

  activate_needs_lease :
      (c : RunCapability) (now : Time) (d d' : Db) (r : ℕ) (row : Attempt)
      → activate c now d ≡ ok (r, d')
      → lookup c.run_id d.attempts ≡ some row
      → c.lease_epoch < row.lease_epoch
      → ⊥
  unfolding activate
  activate_needs_lease c now d d' r row e found newer = ground arith

  -- Once an attempt with a newer lease is activated, every frame of an older lease of the run is refused,
  -- and so is every activation with one, whatever transactions follow.
  pub activate_shuts_out :
      (c : RunCapability) (now : Time) (resume : ℕ) (s m t : System)
      → activate c now s.db ≡ ok (resume, m.db)
      → Steps l m t
      → (old : RunCapability) → old.run_id ≡ c.run_id
      → old.lease_epoch < c.lease_epoch
      → ((frame : AgentFrame) (id : Uuid) (at : Time)
          → (p : Error) × (accept l old frame id at t.db ≡ err p))
        × ((at : Time) → (p : Error) × (activate old at t.db ≡ err p))
  activate_shuts_out c now resume s m t e later old same older =
      let (row, found, lease) =
        Steps-HasLease m t c.run_id c.lease_epoch later (activate-lease c now s.db m.db resume e) in
      let there : lookup old.run_id t.db.attempts ≡ some row =
        ap (λ x. lookup x t.db.attempts) same ∙ found in
      (
        λ frame id at. elim (Result-cases (accept l old frame id at t.db)) [
          | inr refused ↦ refused
          | inl ((r, d'), accepted) ↦
              absurd (accept_needs_lease old frame id at t.db d' r row accepted there (omega arith))
        ],
        λ at. elim (Result-cases (activate old at t.db)) [
          | inr refused ↦ refused
          | inl ((r, d'), activated) ↦
              absurd (activate_needs_lease old at t.db d' r row activated there (omega arith))
        ],
      )
