-- ===== src/Runner/Bounded.antt =====
-- Admission, scheduling and the loss of an attempt keep the bound on attempts
-- (services/agent-runner/agent_runner/service.py).
use porfirium.Prelude.{
  ℕ, ◌+◌, ◌<◌, ◌≡◌, refl, ◌∙◌, sym, ap, inl, inr, true, false, not, ◌&&◌, Option, none, some, Uuid,
  Key, Time, ◌==◌, Table, lookup, put, update_where, lookup-put, lookup-update_where, Each-put, ok,
  arith, Option-cases, Bool-cases, ==_iff,
}
use mathlib.Core.Path.{subst₂}
use porfirium.Runner.State.{
  Run, RunState, Attempt, Db, RunAdmission, SignedSpecification, is_schedulable,
}
use porfirium.Runner.Admission.{admit, admitted_run}
use porfirium.Runner.Attempts.{max_number, always, active_is, new_attempt, schedule, begin}
use porfirium.Runner.Loss.{Candidate, handle_attempt_loss, retry_allowed}
use porfirium.Runner.Effects.{admit-runs, schedule-cases, begin-rows}
use porfirium.Runner.Retries.{
  SameNumbers-update_where, IsLatest, IsLimited, IsBounded, update_where-IsBounded,
  max_number-put_fresh,
}
use porfirium.Runner.Steps.{Config}

active_is-eq : (a : Uuid) (r : Run) → active_is a r ≡ true → r.active_attempt_id ≡ some a
active_is-eq a r h = ground arith

pub admit-IsBounded :
    (g : Config) (a : RunAdmission) (key : Key) (spec : SignedSpecification) (event_id : Uuid)
    (now : Time) (d d' : Db) {r : Run}
    → 0 < g.max_attempts
    → admit g.digest g.payload_digest g.attempt_timeout_seconds a key spec event_id now d
      ≡ ok (r, d')
    → d'.attempts ≡ d.attempts
    → IsBounded g.max_attempts d.runs d.attempts
    → IsBounded g.max_attempts d'.runs d'.attempts
unfolding admitted_run
admit-IsBounded g a key spec event_id now d d' positive e same (each, owned) =
    elim (admit-runs g.digest g.payload_digest g.attempt_timeout_seconds a key spec event_id now d
      d' e) [
        | inl old ↦ rw (same, old) (each, owned)
        | inr (deadline, unused, new) ↦
            rw (same, new)
              (
                Each-put (IsLimited g.max_attempts d.attempts) a.run_id _ d.runs
                    (
                      λ s. ground (arith, owned a.run_id unused),
                      ground (arith, owned a.run_id unused),
                      λ b q. cc,
                    )
                    each,
                λ k absent. owned k (
                    ground
                      (arith, lookup-put a.run_id k (admitted_run a spec deadline now) d.runs)),
              )
      ]

-- A new attempt of a run leaves the numbers of the others.
put-IsLimited_other :
    (n : ℕ) (t : Table Attempt) (id : Uuid) (a : Attempt) (k : Uuid) (r : Run)
    → lookup id t ≡ none
    → (a.run_id == k) ≡ false
    → IsLimited n t k r
    → IsLimited n (put id a t) k r
put-IsLimited_other n t id a k r fresh other h =
    let same : max_number k (put id a t) ≡ max_number k t =
      ground (arith, max_number-put_fresh k id a t fresh) in
    (
      λ s. ground (arith, same, h.0 s),
      ground (arith, same, h.1),
      λ b e.
          let (row, found, owner, number) = h.2 b e in
          (row, ground (arith, lookup-put id b a t), owner, number ∙ sym same),
    )

-- The run of the new attempt has it as its latest.
put-IsLimited_own :
    (n : ℕ) (t : Table Attempt) (id : Uuid) (a : Attempt) (r : Run)
    → lookup id t ≡ none
    → max_number a.run_id t < n
    → a.attempt_number ≡ max_number a.run_id t + 1
    → is_schedulable r.state ≡ false
    → r.active_attempt_id ≡ some id
    → IsLimited n (put id a t) a.run_id r
put-IsLimited_own n t id a r fresh room numbered busy active =
    let own : max_number a.run_id (put id a t) ≡ a.attempt_number =
      ground (arith, max_number-put_fresh a.run_id id a t fresh) in
    (λ s. cc, ground (arith, own), λ b e. (a, ground (arith, lookup-put id b a t), refl, sym own))

-- The new attempt has the next number of its run, and no other run's numbers change.
begin-IsBounded :
    (n : ℕ) (run attempt_id : Uuid) (row : Run) (now : Time) (d d' : Db) {x : Option Uuid}
    → lookup run d.runs ≡ some row
    → is_schedulable row.state ≡ true
    → begin run attempt_id
        (new_attempt run (max_number run d.attempts + 1) (row.lease_epoch + 1) row.deadline_at)
        row
        now
        d
      ≡ ok (x, d')
    → IsBounded n d.runs d.attempts
    → IsBounded n d'.runs d'.attempts
unfolding new_attempt
begin-IsBounded n run attempt_id row now d d' found waiting e (each, owned) =
    let a = new_attempt run (max_number run d.attempts + 1) (row.lease_epoch + 1) row.deadline_at in
    let (_, fresh, rows, runs) = begin-rows run attempt_id a row now d d' e in
    let started = record row {
      state = RunState.starting;
      active_attempt_id = some attempt_id;
      lease_epoch = row.lease_epoch + 1;
      updated_at = now;
    } in
    rw (rows, runs)
      (
        λ k v h. elim (Bool-cases (run == k)) [
          | inl own ↦
              let here : run ≡ k = (==_iff run k).0 own in
              let new : started ≡ v = ground (arith, lookup-put run k started d.runs) in
              subst₂ (λ j w. IsLimited n (put attempt_id a d.attempts) j w) here new
                (put-IsLimited_own n d.attempts attempt_id a started fresh
                  ((each run row found).0 waiting) refl refl refl)
          | inr other ↦
              put-IsLimited_other n d.attempts attempt_id a k v fresh other
                (each k v (ground (arith, lookup-put run k started d.runs)))
        ],
        λ k absent. elim (Bool-cases (run == k)) [
          | inl own ↦ absurd (ground (arith, lookup-put run k started d.runs))
          | inr other ↦ ground (
            arith,
            max_number-put_fresh k attempt_id a d.attempts fresh,
            lookup-put run k started d.runs,
            owned k,
          )
        ],
      )

pub schedule-IsBounded :
    (g : Config) (run attempt_id : Uuid) (now : Time) (d d' : Db) {x : Option Uuid}
    → schedule g.limits run attempt_id now d ≡ ok (x, d')
    → IsBounded g.max_attempts d.runs d.attempts
    → IsBounded g.max_attempts d'.runs d'.attempts
schedule-IsBounded g run attempt_id now d d' e h =
    elim (schedule-cases g.limits run attempt_id now d d' e) [
      | inl (_, same) ↦ rw same h
      | inr (row, found, waiting, _, _, begun) ↦
          begin-IsBounded g.max_attempts run attempt_id row now d d' found waiting begun h
    ]

-- The number that was read of an active attempt is the number of attempts so far.
latest_read :
    (k run number : Uuid) (f : Attempt → Attempt) (t : Table Attempt)
    → ((a : Attempt) → ((f a).run_id ≡ a.run_id) × ((f a).attempt_number ≡ a.attempt_number))
    → ((a : Attempt) → lookup k t ≡ some a → a.attempt_number ≡ number)
    → IsLatest (update_where k always f t) run k
    → max_number run (update_where k always f t) ≡ number
latest_read k run number f t keep read (row, found, owner, numbered) =
    elim (Option-cases (lookup k t)) [
      | inl absent ↦ absurd (ground (arith, lookup-update_where k k always f t))
      | inr (a, old) ↦
          let eq : f a ≡ row = ground (arith, lookup-update_where k k always f t) in
          sym numbered ∙ ap (λ (x : Attempt). x.attempt_number) (sym eq) ∙ (keep a).1 ∙ read a old
    ]

-- A lost attempt is retried only below the bound.
pub handle_attempt_loss-IsBounded :
    (n : ℕ) (c : Candidate) (event_id : Uuid) (now : Time) (d : Db)
    → ((a : Attempt)
        → lookup c.attempt_id d.attempts ≡ some a
        → a.attempt_number ≡ c.attempt.attempt_number)
    → IsBounded n d.runs d.attempts
    → let d' = handle_attempt_loss n c event_id now d in IsBounded n d'.runs d'.attempts
unfolding handle_attempt_loss
handle_attempt_loss-IsBounded n c event_id now d read h =
    elim (Bool-cases (
      not c.attempt.visible_output
      && retry_allowed c.attempt.attempt_number c.run.deadline_at n now)) [
        | inl again ↦ rw again (
            update_where-IsBounded n d.runs d.attempts _ c.run_id (active_is c.attempt_id) _
              (SameNumbers-update_where c.attempt_id _ d.attempts (λ a. (refl, refl)))
              (λ r l p. (
                λ s. ground (
                  arith,
                  latest_read c.attempt_id c.run_id c.attempt.attempt_number _ d.attempts
                      (λ a. (refl, refl)) read (l.2 c.attempt_id (active_is-eq c.attempt_id r p)),
                ),
                l.1,
                λ a e. cc,
              ))
              h)
        | inr over ↦ rw over (
            update_where-IsBounded n d.runs d.attempts _ c.run_id (active_is c.attempt_id) _
              (SameNumbers-update_where c.attempt_id _ d.attempts (λ a. (refl, refl)))
              (λ r l p. (λ s. cc, l.1, λ a e. cc)) h)
      ]
