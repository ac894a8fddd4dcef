-- ===== src/Runner/Converging.antt =====
-- What the parts of services/agent-runner/agent_runner/completion.py do to the runs and the outbox.
use porfirium.Prelude.{
  ℕ, ◌≡◌, ◌⊎◌, inl, inr, Bool, true, false, Option, none, some, ◌∷◌, List, Uuid, Time, lookup,
  update_where, ok, Result-cases, Option-cases, Bool-cases, arith, elem, not, ◌&&◌,
}
use porfirium.Runner.State.{Run, Db, Completion, is_terminal}
use porfirium.Runner.Attempts.{always}
use porfirium.Runner.Completion.{
  RunEvent, Proposal, consume_run_event, apply_event, propose, insert_proposal, check_proposal,
  confirm_messages, confirm_checkpoint, is_bound, is_ready, apply_confirmations, finish, complete,
  start_message, confirm_messages_row, confirm_checkpoint_row,
}

-- Two databases that differ at most in completions, confirmations and the inbox.
abbrev pub SameRuns : Db → Db → Type 0
SameRuns d d' = (d'.runs ≡ d.runs) × (d'.attempts ≡ d.attempts) × (d'.outbox ≡ d.outbox)

pub propose-cases :
    (run : Uuid) (r : Run) (event_id : Uuid) (p : Proposal) (now : Time) (d d' : Db)
    → propose run r event_id p now d ≡ ok d'
    → (check_proposal r p ≡ ok tt)
      × ((d' ≡ d)
          ⊎ ((lookup run d.completions ≡ none) × (d' ≡ insert_proposal run r event_id p now d)))
unfolding propose
propose-cases run r event_id p now d d' e = elim (Option-cases (lookup run d.completions)) [
  | inl new ↦ elim (Result-cases (check_proposal r p)) [
    | inl (u, fine) ↦ (fine, inr (new, ground arith))
    | inr (x, bad) ↦ absurd (ground arith)
  ]
  | inr (c, old) ↦ elim (Result-cases (check_proposal r p)) [
    | inl (u, fine) ↦ (fine, inl (ground arith))
    | inr (x, bad) ↦ absurd (ground arith)
  ]
]

pub confirm_messages-SameRuns :
    (run : Uuid) (payload : Option (List Uuid)) (d d' : Db)
    → confirm_messages run payload d ≡ ok d'
    → SameRuns d d'
unfolding confirm_messages
confirm_messages-SameRuns run payload d d' e = ground arith

pub confirm_checkpoint-SameRuns :
    (run : Uuid) (payload : Option Uuid) (d d' : Db)
    → confirm_checkpoint run payload d ≡ ok d'
    → SameRuns d d'
unfolding confirm_checkpoint
confirm_checkpoint-SameRuns run payload d d' e = ground arith

pub apply_confirmations-SameRuns :
    (run : Uuid) (d d' : Db) → apply_confirmations run d ≡ ok d' → SameRuns d d'
unfolding apply_confirmations confirm_messages_row confirm_checkpoint_row
apply_confirmations-SameRuns run d d' e = ground arith

-- `_converge` leaves the runs alone, or completes this one, which was reconciling and had all its
-- confirmations.
pub finish-cases :
    (run event_id : Uuid) (now : Time) (d : Db)
    → (finish run event_id now d ≡ d)
      ⊎ ((r : Run) × (c : Completion) × (lookup run d.runs ≡ some r)
          × (lookup run d.completions ≡ some c)
          × (is_terminal r.state ≡ false)
          × (is_ready c ≡ true)
          × (finish run event_id now d ≡ complete run r c event_id now d))
unfolding finish
finish-cases run event_id now d = elim (Option-cases (lookup run d.runs)) [
  | inl absent ↦ inl (ground arith)
  | inr (r, found) ↦ elim (Option-cases (lookup run d.completions)) [
    | inl unproposed ↦ inl (ground arith)
    | inr (c, proposed) ↦ elim (Bool-cases (not (is_terminal r.state) && is_ready c)) [
      | inl go ↦ inr (r, c, found, proposed, ground arith, ground arith, ground arith)
      | inr stay ↦ inl (ground arith)
    ]
  ]
]

pub start_message-runs :
    (r : Run) (attempt : Uuid) (epoch : ℕ) (message : Uuid) (d d' : Db)
    → start_message r attempt epoch message d ≡ ok d'
    → (d'.runs ≡ d.runs)
      × (d'.outbox ≡ d.outbox)
      × (d'.attempts
          ≡ update_where attempt always
              (λ a. record a { visible_output = true; active_message_id = some message })
              d.attempts)
unfolding start_message
start_message-runs r attempt epoch message d d' e = (ground arith, ground arith, ground arith)

-- A consumed event was new, is bound to its run, and was applied to the database that has seen it.
pub consume_run_event-cases :
    (e : RunEvent) (new_id : Uuid) (now : Time) (d d' : Db) {x : Bool}
    → consume_run_event e new_id now d ≡ ok (x, d')
    → ((x ≡ false) × (d' ≡ d))
      ⊎ ((r : Run) × (x ≡ true)
          × (elem e.id d.inbox ≡ false)
          × (lookup e.run_id d.runs ≡ some r)
          × (is_bound e r ≡ true)
          × (apply_event e r new_id now (record d { inbox = e.id ∷ d.inbox }) ≡ ok d'))
unfolding consume_run_event
consume_run_event-cases e new_id now d d' h = elim (Bool-cases (elem e.id d.inbox)) [
  | inl seen ↦ inl (ground arith, ground arith)
  | inr new ↦ elim (Option-cases (lookup e.run_id d.runs)) [
    | inl absent ↦ absurd (ground arith)
    | inr (r, found) ↦
        elim (Result-cases (apply_event e r new_id now (record d { inbox = e.id ∷ d.inbox }))) [
          | inl (u, done) ↦ inr (r, ground arith, new, found, ground arith, ground arith)
          | inr (x, bad) ↦ absurd (ground arith)
        ]
  ]
]
