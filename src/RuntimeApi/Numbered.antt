-- ===== src/RuntimeApi/Numbered.antt =====
-- The frames that an attempt gets accepted are numbered without a gap
-- (services/agent-runtime-api/agent_runtime_api/runtime.py).
use mathlib.Core.Path.{subst}
use porfirium.Prelude.{
  ℕ, ◌≡◌, ◌∙◌, ap, sym, ◌⊎◌, inl, inr, false, Option, some, List, ◌∷◌, Uuid, Time, ◌==◌, Table,
  lookup, put, lookup-put, ok, Bool-cases, arith,
}
use porfirium.RuntimeApi.State.{RunCapability, AgentFrame, Attempt, AcceptedFrame, Db}
use porfirium.RuntimeApi.Events.{Library}
use porfirium.RuntimeApi.Accept.{attempt_of, frame_of, activate, accept}
use porfirium.RuntimeApi.Effects.{
  activate-effect, accept-effect, reserve-keeps, complete_invocation-keeps,
}
use porfirium.RuntimeApi.Steps.{
  System, IsOpen, Step, activates, accepts, reserves, completes, Steps, here, next,
}
use porfirium.RuntimeApi.Numbers.{
  RunIsNumbered, other_session, other_frame, taken_over, stored, gone_on,
}

abbrev pub IsNumbered : System → Type 0
IsNumbered s = (run : Uuid) → RunIsNumbered run (lookup run s.db.attempts) s.db.frames s.sessions

same_or_other : (k run : Uuid) → (k ≡ run) ⊎ (k == run ≡ false)
same_or_other k run = elim (Bool-cases (k == run)) [ inl h ↦ inl (ground arith) | inr h ↦ inr h ]

put-same : (k : Uuid) (new : Attempt) (t : Table Attempt) → lookup k (put k new t) ≡ some new
put-same k new t = ground (arith, lookup-put k k new t)

put-other :
    (k run : Uuid) (new : Attempt) (t : Table Attempt)
    → k == run ≡ false
    → lookup run (put k new t) ≡ lookup run t
put-other k run new t h = ground (arith, lookup-put k run new t)

moved :
    (run : Uuid) {o o' : Option Attempt} {fs fs' : List AcceptedFrame} {cs cs' : List RunCapability}
    → o' ≡ o
    → fs' ≡ fs
    → cs' ≡ cs
    → RunIsNumbered run o fs cs
    → RunIsNumbered run o' fs' cs'
moved run {o} {o'} {fs} {fs'} {cs} {cs'} eo ef ec h =
    subst (λ x. RunIsNumbered run x fs' cs') (sym eo)
      (subst (λ x. RunIsNumbered run o x cs') (sym ef)
        (subst (λ x. RunIsNumbered run o fs x) (sym ec) h))

activate-IsNumbered :
    (c : RunCapability) (now : Time) (s t : System) (r : ℕ)
    → activate c now s.db ≡ ok (r, t.db)
    → t.sessions ≡ c ∷ s.sessions
    → IsNumbered s
    → IsNumbered t
activate-IsNumbered c now s t r e opened h run = elim (activate-effect c now s.db t.db r e) [
  | inl (last, attempts, frames, invocations, older) ↦ elim (same_or_other c.run_id run) [
    | inl same ↦
        subst (λ x. RunIsNumbered x (lookup x t.db.attempts) t.db.frames t.sessions) same
          (moved c.run_id
            (ap (lookup c.run_id) attempts
              ∙ put-same c.run_id (attempt_of c now last) s.db.attempts)
            frames opened
            (taken_over c now last (lookup c.run_id s.db.attempts) s.db.frames s.sessions older
              (h c.run_id)))
    | inr other ↦
        moved run
          (ap (lookup run) attempts
            ∙ put-other c.run_id run (attempt_of c now last) s.db.attempts other)
          frames opened
          (other_session run (lookup run s.db.attempts) s.db.frames s.sessions c other (h run))
  ]
  | inr (same, (row, found, lease, attempt)) ↦
      moved run (ap (λ (x : Db). lookup run x.attempts) same) (ap (λ (x : Db). x.frames) same)
        opened
        (elim (same_or_other c.run_id run) [
          | inl this ↦
              subst (λ x. RunIsNumbered x (lookup x s.db.attempts) s.db.frames (c ∷ s.sessions))
                this
                (gone_on c row (lookup c.run_id s.db.attempts) s.db.frames s.sessions found lease
                  attempt (h c.run_id))
          | inr other ↦
              other_session run (lookup run s.db.attempts) s.db.frames s.sessions c other (h run)
        ])
]

module _ (l : Library) where
  accept-IsNumbered :
      (c : RunCapability) (frame : AgentFrame) (id : Uuid) (now : Time) (s t : System)
      (r : Option Uuid)
      → IsOpen c s.sessions
      → accept l c frame id now s.db ≡ ok (r, t.db)
      → t.sessions ≡ s.sessions
      → IsNumbered s
      → IsNumbered t
  accept-IsNumbered c frame id now s t r opened e sessions h run =
      let (p, given, effect) = accept-effect l c frame id now s.db t.db r e in
      elim effect [
        | inr (same, old) ↦
            moved run (ap (λ (x : Db). lookup run x.attempts) same) (ap (λ (x : Db). x.frames) same)
              sessions (h run)
        | inl (row, found, lease, fresh, number, attempts, frames, invocations) ↦
            elim (same_or_other c.run_id run) [
              | inl this ↦
                  subst (λ x. RunIsNumbered x (lookup x t.db.attempts) t.db.frames t.sessions) this
                    (moved c.run_id
                      (ap (lookup c.run_id) attempts ∙ put-same c.run_id _ s.db.attempts) frames
                      sessions
                      (stored c frame.identity p r now row s.db.frames s.sessions opened lease
                        number
                        (subst (λ o. RunIsNumbered c.run_id o s.db.frames s.sessions) found
                          (h c.run_id))))
              | inr other ↦
                  moved run
                    (ap (lookup run) attempts ∙ put-other c.run_id run _ s.db.attempts other) frames
                    sessions
                    (other_frame run (lookup run s.db.attempts) s.db.frames s.sessions
                      (frame_of c frame.identity p r) other (h run))
            ]
      ]

  Step-IsNumbered : (s t : System) → Step l s t → IsNumbered s → IsNumbered t
  Step-IsNumbered s t (activates c now r e opened) h = activate-IsNumbered c now s t r e opened h
  Step-IsNumbered s t (accepts c frame id now r opened e same) h =
      accept-IsNumbered c frame id now s t r opened e same h
  Step-IsNumbered s t (reserves gateway c call r opened e same) h = λ run.
      let (attempts, frames) = reserve-keeps l gateway c call s.db t.db r e in
      moved run (ap (lookup run) attempts) frames same (h run)
  Step-IsNumbered s t (completes c i answer r e same) h = λ run.
      let (attempts, frames) = complete_invocation-keeps l c i answer s.db t.db r e in
      moved run (ap (lookup run) attempts) frames same (h run)

  -- Through every interleaving of transactions the frames that were accepted from the current attempt of a run
  -- are numbered by its last sequence number, one less, and so on down to 1, with no gap and no repetition;
  -- no frame and no open connection has a newer lease than the row of its run, nor another attempt under
  -- the same lease.
  pub Steps-IsNumbered : (s t : System) → IsNumbered s → Steps l s t → IsNumbered t
  Steps-IsNumbered s t h here = h
  Steps-IsNumbered s t h (next {m = m} earlier step) =
      Step-IsNumbered m t step (Steps-IsNumbered s m h earlier)
