-- ===== src/Runner/Dedup.antt =====
-- Every event is applied once (services/agent-runner/agent_runner/completion.py), and an admission
-- can be repeated (`admit` of service.py).
use porfirium.Prelude.{
  succeeds-split, ℕ, ◌≡◌, ◌∙◌, inl, inr, Bool, false, Option, ◌∷◌, List, Uuid, Digest, Key, Time,
  lookup-put, ok, arith, Option-cases,
}
use porfirium.Runner.State.{Run, Db, RunAdmission, SignedSpecification, ExpiresAt, get_run}
use porfirium.Runner.Admission.{admit, admit_new, find_admission}
use porfirium.Runner.Completion.{
  RunEvent, EventBody, result_proposed, messages_committed, checkpoint_committed, message_started,
  malformed, unsupported, Proposal, consume_run_event, apply_event, propose, insert_proposal,
  confirm_messages, confirm_checkpoint, converge, start_message, confirm_messages_row,
  confirm_checkpoint_row,
}
use porfirium.Runner.Converging.{consume_run_event-cases}

converge-inbox :
    (run event_id : Uuid) (now : Time) (d d' : Db)
    → converge run event_id now d ≡ ok d'
    → d'.inbox ≡ d.inbox
unfolding converge confirm_messages_row confirm_checkpoint_row
converge-inbox run event_id now d d' e = ground arith

propose-inbox :
    (run : Uuid) (r : Run) (event_id : Uuid) (p : Proposal) (now : Time) (d d' : Db)
    → propose run r event_id p now d ≡ ok d'
    → d'.inbox ≡ d.inbox
unfolding propose insert_proposal
propose-inbox run r event_id p now d d' e = ground arith

confirm_messages-inbox :
    (run : Uuid) (payload : Option (List Uuid)) (d d' : Db)
    → confirm_messages run payload d ≡ ok d'
    → d'.inbox ≡ d.inbox
unfolding confirm_messages
confirm_messages-inbox run payload d d' e = ground arith

confirm_checkpoint-inbox :
    (run : Uuid) (payload : Option Uuid) (d d' : Db)
    → confirm_checkpoint run payload d ≡ ok d'
    → d'.inbox ≡ d.inbox
unfolding confirm_checkpoint
confirm_checkpoint-inbox run payload d d' e = ground arith

apply_event-inbox :
    (e : RunEvent) (r : Run) (new_id : Uuid) (now : Time) (d d' : Db)
    → apply_event e r new_id now d ≡ ok d'
    → d'.inbox ≡ d.inbox
unfolding apply_event start_message
apply_event-inbox e r new_id now d d' h = go e.body h
  where
    go :
        (b : EventBody)
        → apply_event (record e { body = b }) r new_id now d ≡ ok d'
        → d'.inbox ≡ d.inbox
    go (result_proposed p) h =
        let (m, first, c) = succeeds-split (propose e.run_id r e.id p now d) _ h in
        converge-inbox e.run_id new_id now m d' c ∙ propose-inbox e.run_id r e.id p now d m first
    go (messages_committed payload) h =
        let (m, first, c) = succeeds-split (confirm_messages e.run_id payload d) _ h in
        converge-inbox e.run_id new_id now m d' c
        ∙ confirm_messages-inbox e.run_id payload d m first
    go (checkpoint_committed payload) h =
        let (m, first, c) = succeeds-split (confirm_checkpoint e.run_id payload d) _ h in
        converge-inbox e.run_id new_id now m d' c
        ∙ confirm_checkpoint-inbox e.run_id payload d m first
    go (message_started attempt epoch message) h = ground arith
    go malformed h = cc
    go unsupported h = cc

-- An event that was consumed has no effect when it is delivered again, at whatever time: the second
-- call returns false and leaves the database as it is.
pub consume_run_event_once :
    (e : RunEvent) (new_id new_id' : Uuid) (now now' : Time) (d d' : Db) {x : Bool}
    → consume_run_event e new_id now d ≡ ok (x, d')
    → consume_run_event e new_id' now' d' ≡ ok (false, d')
unfolding consume_run_event
consume_run_event_once e new_id new_id' now now' d d' h =
    elim (consume_run_event-cases e new_id now d d' h) [
      | inl (never, same) ↦ ground arith
      | inr (r, _, _, _, _, applied) ↦
          ground (
            arith,
            apply_event-inbox e r new_id now (record d { inbox = e.id ∷ d.inbox }) d' applied,
          )
    ]

module _ (digest : RunAdmission → Digest) (payload_digest : ExpiresAt → ℕ → Digest)
    (timeout : ℕ) where
  -- Whoever repeats an admission that succeeded, with the same key and request, gets the same run and
  -- changes nothing, whatever the specification, the time and the event id are then.
  pub admit_repeats :
      (a : RunAdmission) (key : Key) (spec spec' : SignedSpecification) (event_id event_id' : Uuid)
      (now now' : Time) (d d' : Db) {r : Run}
      → admit digest payload_digest timeout a key spec event_id now d ≡ ok (r, d')
      → admit digest payload_digest timeout a key spec' event_id' now' d' ≡ ok (r, d')
  unfolding admit admit_new get_run find_admission
  admit_repeats a key spec spec' event_id event_id' now now' d d' e =
      elim (Option-cases (find_admission key d.idempotency)) [
        | inl new ↦ grind (arith, lookup-put)
        | inr (row, old) ↦ ground arith
      ]
