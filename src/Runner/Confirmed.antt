-- ===== src/Runner/Confirmed.antt =====
-- A completion counts as confirmed only by a stored confirmation that matches it
-- (services/agent-runner/agent_runner/completion.py).
use porfirium.Prelude.{
  ℕ, ◌≡◌, inl, inr, Bool, true, ◌||◌, not, Option, none, some, List, ◌∷◌, Uuid, Time, ◌==◌, holds,
  set_eq, lookup, lookup-put, lookup-update_where, ok, ◌>>=◌, succeeds-split, Option-cases,
  Bool-cases, arith,
}
use porfirium.Runner.State.{Run, Db, Completion}
use porfirium.Runner.Completion.{
  RunEvent, EventBody, Proposal, result_proposed, messages_committed, checkpoint_committed,
  message_started, malformed, unsupported, completion_of, insert_proposal, propose,
  confirm_messages, confirm_messages_row, confirm_checkpoint, confirm_checkpoint_row,
  apply_messages, apply_checkpoint, apply_confirmations, complete, finish, converge, start_message,
  apply_event, consume_run_event,
}
use porfirium.Runner.Converging.{consume_run_event-cases, finish-cases}

-- A completion with its messages confirmed has a stored confirmation of just these messages.
abbrev pub messages_backed : Option (Option (List Uuid)) → Completion → Bool
messages_backed none c = not c.messages_confirmed
messages_backed (some none) c = not c.messages_confirmed
messages_backed (some (some ids)) c = not c.messages_confirmed || set_eq ids c.final_message_ids

-- A completion with its checkpoint confirmed has a stored confirmation of this checkpoint.
abbrev pub checkpoint_backed : Option (Option Uuid) → Completion → Bool
checkpoint_backed none c = not c.checkpoint_confirmed
checkpoint_backed (some none) c = not c.checkpoint_confirmed
checkpoint_backed (some (some k)) c = not c.checkpoint_confirmed || holds c.final_checkpoint_id k

abbrev pub IsBacked : Db → Type 0
IsBacked d =
    (run : Uuid) (c : Completion)
    → lookup run d.completions ≡ some c
    → (messages_backed (lookup run d.message_confirmations) c ≡ true)
      × (checkpoint_backed (lookup run d.checkpoint_confirmations) c ≡ true)

propose-IsBacked :
    (run : Uuid) (r : Run) (event_id : Uuid) (p : Proposal) (now : Time) (d d' : Db)
    → IsBacked d
    → propose run r event_id p now d ≡ ok d'
    → IsBacked d'
unfolding propose insert_proposal completion_of
propose-IsBacked run r event_id p now d d' h e j c found =
    elim (Option-cases (lookup run d.completions)) [
      | inl new ↦ elim (Bool-cases (run == j)) [
        | inl same ↦ (grind (arith, lookup-put), grind (arith, lookup-put))
        | inr other ↦ (grind (arith, lookup-put, h j c), grind (arith, lookup-put, h j c))
      ]
      | inr (old, there) ↦ ground (arith, h j c)
    ]

confirm_messages-IsBacked :
    (run : Uuid) (payload : Option (List Uuid)) (d d' : Db)
    → IsBacked d
    → confirm_messages run payload d ≡ ok d'
    → IsBacked d'
unfolding confirm_messages confirm_messages_row
confirm_messages-IsBacked run payload d d' h e j c found =
    elim (Option-cases (lookup run d.completions)) [
      | inl new ↦ elim (Bool-cases (run == j)) [
        | inl same ↦ ground arith
        | inr other ↦ grind (arith, lookup-put, h j c)
      ]
      | inr (old, there) ↦ elim (Bool-cases (run == j)) [
        | inl same ↦ grind (arith, lookup-put, lookup-update_where, h run old there)
        | inr other ↦ grind (arith, lookup-put, lookup-update_where, h j c)
      ]
    ]

confirm_checkpoint-IsBacked :
    (run : Uuid) (payload : Option Uuid) (d d' : Db)
    → IsBacked d
    → confirm_checkpoint run payload d ≡ ok d'
    → IsBacked d'
unfolding confirm_checkpoint confirm_checkpoint_row
confirm_checkpoint-IsBacked run payload d d' h e j c found =
    elim (Option-cases (lookup run d.completions)) [
      | inl new ↦ elim (Bool-cases (run == j)) [
        | inl same ↦ ground arith
        | inr other ↦ grind (arith, lookup-put, h j c)
      ]
      | inr (old, there) ↦ elim (Bool-cases (run == j)) [
        | inl same ↦ grind (arith, lookup-put, lookup-update_where, h run old there)
        | inr other ↦ grind (arith, lookup-put, lookup-update_where, h j c)
      ]
    ]

apply_messages-IsBacked :
    (run : Uuid) (p : Completion) (d d' : Db)
    → lookup run d.completions ≡ some p
    → IsBacked d
    → apply_messages run p d ≡ ok d'
    → IsBacked d'
unfolding apply_messages confirm_messages_row
apply_messages-IsBacked run p d d' there h e j c found = elim (Bool-cases (run == j)) [
  | inl same ↦ grind (arith, lookup-update_where, h run p there, h j c)
  | inr other ↦ grind (arith, lookup-update_where, h j c)
]

-- `p` is the completion as it was read; its checkpoint is still the row's.
apply_checkpoint-IsBacked :
    (run : Uuid) (p q : Completion) (d d' : Db)
    → lookup run d.completions ≡ some q
    → q.final_checkpoint_id ≡ p.final_checkpoint_id
    → IsBacked d
    → apply_checkpoint run p d ≡ ok d'
    → IsBacked d'
unfolding apply_checkpoint confirm_checkpoint_row
apply_checkpoint-IsBacked run p q d d' there same_id h e j c found = elim (Bool-cases (run == j)) [
  | inl same ↦ grind (arith, lookup-update_where, h run q there, h j c)
  | inr other ↦ grind (arith, lookup-update_where, h j c)
]

apply_messages-row :
    (run : Uuid) (p : Completion) (d d' : Db)
    → lookup run d.completions ≡ some p
    → apply_messages run p d ≡ ok d'
    → (q : Completion) × (lookup run d'.completions ≡ some q)
      × (q.final_checkpoint_id ≡ p.final_checkpoint_id)
unfolding apply_messages confirm_messages_row
apply_messages-row run p d d' there e = elim (Option-cases (lookup run d'.completions)) [
  | inl absent ↦ absurd (grind (arith, lookup-update_where))
  | inr (q, found) ↦ (q, found, grind (arith, lookup-update_where))
]

apply_confirmations-IsBacked :
    (run : Uuid) (d d' : Db) → IsBacked d → apply_confirmations run d ≡ ok d' → IsBacked d'
unfolding apply_confirmations
apply_confirmations-IsBacked run d d' h e = elim (Option-cases (lookup run d.completions)) [
  | inl none_there ↦ let eq : d ≡ d' = ground arith in rw (← eq) h
  | inr (p, there) ↦
      let (m, first, second) = succeeds-split (apply_messages run p d) _ (applied p there) in
      let (q, row, same) = apply_messages-row run p d m there first in
      apply_checkpoint-IsBacked run p q m d' row same
        (apply_messages-IsBacked run p d m there h first) second
]
  where
    applied :
        (p : Completion)
        → lookup run d.completions ≡ some p
        → (apply_messages run p d >>= apply_checkpoint run p) ≡ ok d'
    applied p there = ground arith

complete-IsBacked :
    (run : Uuid) (r : Run) (c : Completion) (event_id : Uuid) (now : Time) (d : Db)
    → IsBacked d
    → IsBacked (complete run r c event_id now d)
unfolding complete
complete-IsBacked run r c event_id now d h j x found =
    elim (Option-cases (lookup j d.completions)) [
      | inl absent ↦ absurd (grind (arith, lookup-update_where))
      | inr (y, was) ↦ grind (arith, lookup-update_where, h j y was)
    ]

converge-IsBacked :
    (run event_id : Uuid) (now : Time) (d d' : Db)
    → IsBacked d
    → converge run event_id now d ≡ ok d'
    → IsBacked d'
unfolding converge
converge-IsBacked run event_id now d d' h e =
    let (m, applied, finished) = succeeds-split (apply_confirmations run d) _ e in
    let kept = apply_confirmations-IsBacked run d m h applied in
    let eq : d' ≡ finish run event_id now m = cc in
    elim (finish-cases run event_id now m) [
      | inl still ↦ rw (eq, still) kept
      | inr (r, c, _, _, _, _, new) ↦ rw (eq, new) (complete-IsBacked run r c event_id now m kept)
    ]

start_message-IsBacked :
    (r : Run) (attempt : Uuid) (epoch : ℕ) (message : Uuid) (d d' : Db)
    → IsBacked d
    → start_message r attempt epoch message d ≡ ok d'
    → IsBacked d'
unfolding start_message
start_message-IsBacked r attempt epoch message d d' h e j c found = ground (arith, h j c)

apply_event-IsBacked :
    (e : RunEvent) (r : Run) (new_id : Uuid) (now : Time) (d d' : Db)
    → IsBacked d
    → apply_event e r new_id now d ≡ ok d'
    → IsBacked d'
unfolding apply_event
apply_event-IsBacked e r new_id now d d' h k = go e.body k
  where
    go : (b : EventBody) → apply_event (record e { body = b }) r new_id now d ≡ ok d' → IsBacked d'
    go (result_proposed p) k =
        let (m, first, rest) = succeeds-split (propose e.run_id r e.id p now d) _ k in
        converge-IsBacked e.run_id new_id now m d'
          (propose-IsBacked e.run_id r e.id p now d m h first) rest
    go (messages_committed payload) k =
        let (m, first, rest) = succeeds-split (confirm_messages e.run_id payload d) _ k in
        converge-IsBacked e.run_id new_id now m d'
          (confirm_messages-IsBacked e.run_id payload d m h first) rest
    go (checkpoint_committed payload) k =
        let (m, first, rest) = succeeds-split (confirm_checkpoint e.run_id payload d) _ k in
        converge-IsBacked e.run_id new_id now m d'
          (confirm_checkpoint-IsBacked e.run_id payload d m h first) rest
    go (message_started attempt epoch message) k =
        start_message-IsBacked r attempt epoch message d d' h k
    go malformed k = cc
    go unsupported k = cc

-- An event that is consumed keeps this: a completion has its messages confirmed only by a stored
-- confirmation of the same set of messages, and its checkpoint only by one of that checkpoint.
pub consume_run_event-IsBacked :
    (e : RunEvent) (new_id : Uuid) (now : Time) (d d' : Db) {x : Bool}
    → IsBacked d
    → consume_run_event e new_id now d ≡ ok (x, d')
    → IsBacked d'
consume_run_event-IsBacked e new_id now d d' h made =
    elim (consume_run_event-cases e new_id now d d' made) [
      | inl (_, same) ↦ rw same h
      | inr (r, _, _, _, _, applied) ↦
          apply_event-IsBacked e r new_id now (record d { inbox = e.id ∷ d.inbox }) d' h applied
    ]
