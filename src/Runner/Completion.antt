-- ===== src/Runner/Completion.antt =====
-- services/agent-runner/agent_runner/completion.py: proposals, confirmations and convergence, and
-- `validate_run_binding` of event_validation.py. An envelope here has passed `validate_envelope`.
use porfirium.Prelude.{
  ℕ, Bool, true, false, ◌&&◌, ◌||◌, not, Option, none, some, List, [], ◌∷◌, Uuid, Time, ◌==◌, holds,
  option_eq, elem, list_eq, set_eq, is_some, if◌then◌else◌, lookup, put, update_where, Result, ok,
  err, ◌>>=◌, ◌>>◌, raise_if, or_raise,
}
use porfirium.Runner.State.{
  Run, Db, Error, RunState, AttemptState, Completion, Confirmation, messages, checkpoint, other,
  run_not_found, event_invalid, event_unsupported, stale_epoch, confirmation_invalid,
  proposal_conflict, confirmation_mismatch, uncaught, is_terminal, is_reconciling, run_completed,
  enqueue, event_metadata,
}
use porfirium.Runner.Attempts.{always}
use porfirium.Runner.Cancellation.{coalesce}

-- The data of a proposal, with its identities parsed.
pub record Proposal : Type 0 where
  pub attempt_id : Uuid
  pub lease_epoch : ℕ
  pub required_confirmations : List Confirmation
  pub final_message_ids : List Uuid
  pub final_checkpoint_id : Option Uuid

-- The data by the event's type. `none` in a confirmation: its ids do not parse.
pub data EventBody : Type 0 where
  result_proposed : Proposal → EventBody
  messages_committed : Option (List Uuid) → EventBody
  checkpoint_committed : Option Uuid → EventBody
  -- attempt, epoch, message
  message_started : Uuid → ℕ → Uuid → EventBody
  -- a field that the handler reads is missing or does not parse
  malformed : EventBody
  -- another type, and whether it begins with `porfirium.run.`
  unsupported : EventBody

pub record RunEvent : Type 0 where
  pub id : Uuid
  pub run_id : Uuid
  pub user_id : Uuid
  pub conversation_id : Uuid
  pub thread_id : Uuid
  pub correlation_id : Uuid
  pub body : EventBody

abbrev pub conf_eq : Confirmation → Confirmation → Bool
conf_eq messages messages = true
conf_eq checkpoint checkpoint = true
conf_eq (other a) (other b) = a == b
conf_eq _ _ = false

abbrev pub requires : Confirmation → List Confirmation → Bool
requires c [] = false
requires c (x ∷ xs) = conf_eq x c || requires c xs

abbrev pub without : Confirmation → List Confirmation → List Confirmation
without c [] = []
without c (x ∷ xs) = let rest = without c xs in if conf_eq x c then rest else x ∷ rest

-- `list(dict.fromkeys(…))`: the first of each, in order
abbrev pub unique : List Confirmation → List Confirmation
unique [] = []
unique (x ∷ xs) = x ∷ without x (unique xs)

abbrev pub all_known : List Confirmation → Bool
all_known [] = true
all_known (messages ∷ xs) = all_known xs
all_known (checkpoint ∷ xs) = all_known xs
all_known (other a ∷ xs) = false

abbrev pub confs_eq : List Confirmation → List Confirmation → Bool
confs_eq [] [] = true
confs_eq (x ∷ xs) (y ∷ ys) = conf_eq x y && confs_eq xs ys
confs_eq _ _ = false

abbrev pub is_nonempty : List Uuid → Bool
is_nonempty [] = false
is_nonempty (x ∷ xs) = true

abbrev pub iff : Bool → Bool → Bool
iff true b = b
iff false b = not b

-- `validate_run_binding`, of the run that was looked up by the event's `run_id`
unfoldable pub is_bound : RunEvent → Run → Bool
is_bound e r =
    e.correlation_id == r.admission.trace_id
    && e.user_id == r.admission.user_id
    && e.conversation_id == r.admission.conversation_id
    && e.thread_id == r.admission.thread_id

unfoldable pub completion_of : Uuid → Proposal → Completion
completion_of event_id p = record {
  proposal_event_id = event_id;
  attempt_id = p.attempt_id;
  lease_epoch = p.lease_epoch;
  final_message_ids = p.final_message_ids;
  final_checkpoint_id = p.final_checkpoint_id;
  required_confirmations = unique p.required_confirmations;
  messages_confirmed = false;
  checkpoint_confirmed = false;
  reconciled_at = none;
}

unfoldable pub same_proposal : Completion → Proposal → Bool
same_proposal c p =
    c.attempt_id == p.attempt_id
    && c.lease_epoch == p.lease_epoch
    && list_eq c.final_message_ids p.final_message_ids
    && option_eq c.final_checkpoint_id p.final_checkpoint_id
    && confs_eq c.required_confirmations (unique p.required_confirmations)

-- The tests of `_proposal` before it looks for an earlier one.
unfoldable pub check_proposal : Run → Proposal → Result Error (Unit {0})
check_proposal r p = do
  raise_if (not (holds r.active_attempt_id p.attempt_id) || not (p.lease_epoch == r.lease_epoch))
      stale_epoch
  let required = unique p.required_confirmations
  raise_if (not (all_known required)) confirmation_invalid
  raise_if (not (iff (requires messages required) (is_nonempty p.final_message_ids)))
      confirmation_invalid
  raise_if (not (iff (requires checkpoint required) (is_some p.final_checkpoint_id)))
      confirmation_invalid

unfoldable pub insert_proposal : Uuid → Run → Uuid → Proposal → Time → Db → Db
unfolding completion_of
insert_proposal run r event_id p now d = record d {
  completions = put run (completion_of event_id p) d.completions;
  runs =
      update_where run (λ r. not (is_terminal r.state))
        (λ r. record r { state = RunState.completion_reconciling; updated_at = now }) d.runs;
}

-- `_proposal`
unfoldable pub propose : Uuid → Run → Uuid → Proposal → Time → Db → Result Error Db
propose run r event_id p now d = do
  check_proposal r p
  elim (lookup run d.completions) [
    | some existing ↦ if same_proposal existing p then ok d else err proposal_conflict
    | none ↦ ok (insert_proposal run r event_id p now d)
  ]

abbrev pub any_completion : Completion → Bool
any_completion c = true

-- `UPDATE run_completion SET messages_confirmed=true`, and its twin
unfoldable pub confirm_messages_row : Uuid → Db → Db
confirm_messages_row run d = record d {
  completions =
      update_where run any_completion (λ c. record c { messages_confirmed = true }) d.completions;
}

unfoldable pub confirm_checkpoint_row : Uuid → Db → Db
confirm_checkpoint_row run d = record d {
  completions =
      update_where run any_completion (λ c. record c { checkpoint_confirmed = true }) d.completions;
}

-- `_confirmation(…, "messages", …)`
unfoldable pub confirm_messages : Uuid → Option (List Uuid) → Db → Result Error Db
unfolding confirm_messages_row
confirm_messages run payload d =
    let stored : Db = record d {
      message_confirmations = put run payload d.message_confirmations;
    } in
    elim (lookup run d.completions) [
      | none ↦ ok stored
      | some p ↦ do
        actual ← or_raise payload uncaught
        raise_if (not (set_eq actual p.final_message_ids)) confirmation_mismatch
        ok (confirm_messages_row run stored)
    ]

-- `_confirmation(…, "checkpoint", …)`
unfoldable pub confirm_checkpoint : Uuid → Option Uuid → Db → Result Error Db
unfolding confirm_checkpoint_row
confirm_checkpoint run payload d =
    let stored : Db = record d {
      checkpoint_confirmations = put run payload d.checkpoint_confirmations;
    } in
    elim (lookup run d.completions) [
      | none ↦ ok stored
      | some p ↦ do
        actual ← or_raise payload uncaught
        raise_if (not (holds p.final_checkpoint_id actual)) confirmation_mismatch
        ok (confirm_checkpoint_row run stored)
    ]

-- The loop of `_converge` over the stored confirmations, one kind at a time.
unfoldable pub apply_messages : Uuid → Completion → Db → Result Error Db
apply_messages run p d = elim (lookup run d.message_confirmations) [
  | none ↦ ok d
  | some payload ↦ do
    actual ← or_raise payload uncaught
    ok (if set_eq actual p.final_message_ids then confirm_messages_row run d else d)
]

unfoldable pub apply_checkpoint : Uuid → Completion → Db → Result Error Db
apply_checkpoint run p d = elim (lookup run d.checkpoint_confirmations) [
  | none ↦ ok d
  | some payload ↦ do
    actual ← or_raise payload uncaught
    ok (if holds p.final_checkpoint_id actual then confirm_checkpoint_row run d else d)
]

unfoldable pub apply_confirmations : Uuid → Db → Result Error Db
unfolding apply_messages apply_checkpoint
apply_confirmations run d = elim (lookup run d.completions) [
  | none ↦ ok d
  | some p ↦ do d' ← apply_messages run p d; apply_checkpoint run p d'
]

unfoldable pub is_ready : Completion → Bool
is_ready c =
    (not (requires messages c.required_confirmations) || c.messages_confirmed)
    && (not (requires checkpoint c.required_confirmations) || c.checkpoint_confirmed)

-- The writes of `_converge` when all is confirmed.
unfoldable pub complete : Uuid → Run → Completion → Uuid → Time → Db → Db
complete run r c event_id now d =
    let ended : Db = record d {
      attempts =
          update_where c.attempt_id always
            (λ a. record a { state = AttemptState.exited; ended_at = coalesce a.ended_at now })
            d.attempts;
      runs =
          update_where run (λ r. is_reconciling r.state)
            (λ r. record r {
              state = RunState.completed;
              terminal_code = none;
              active_attempt_id = none;
              updated_at = now;
            })
            d.runs;
    } in
    if is_reconciling r.state
    then record ended {
      completions =
          update_where run any_completion (λ c. record c { reconciled_at = some now })
            d.completions;
      outbox =
          enqueue event_id
            (run_completed (event_metadata run r c.proposal_event_id now) c.attempt_id
              c.lease_epoch)
            d.outbox;
    }
    else ended

unfoldable pub finish : Uuid → Uuid → Time → Db → Db
unfolding is_ready complete
finish run event_id now d = elim (lookup run d.runs) [
  | none ↦ d
  | some r ↦ elim (lookup run d.completions) [
    | none ↦ d
    | some c ↦
        if is_terminal r.state then d else if is_ready c then complete run r c event_id now d else d
  ]
]

-- `_converge`
unfoldable pub converge : Uuid → Uuid → Time → Db → Result Error Db
unfolding apply_confirmations finish
converge run event_id now d = do d' ← apply_confirmations run d; ok (finish run event_id now d')

-- `porfirium.message.started.v1`
unfoldable pub start_message : Run → Uuid → ℕ → Uuid → Db → Result Error Db
start_message r attempt epoch message d = do
  raise_if (not (holds r.active_attempt_id attempt) || not (epoch == r.lease_epoch)) stale_epoch
  ok (record d {
    attempts =
        update_where attempt always
          (λ a. record a { visible_output = true; active_message_id = some message }) d.attempts;
  })

-- The dispatch on the event's type.
unfoldable pub apply_event : RunEvent → Run → Uuid → Time → Db → Result Error Db
apply_event e r new_id now d = elim (e.body) [
  | result_proposed p ↦ propose e.run_id r e.id p now d >>= converge e.run_id new_id now
  | messages_committed payload ↦
      confirm_messages e.run_id payload d >>= converge e.run_id new_id now
  | checkpoint_committed payload ↦
      confirm_checkpoint e.run_id payload d >>= converge e.run_id new_id now
  | message_started attempt epoch message ↦ start_message r attempt epoch message d
  | malformed ↦ err uncaught
  | unsupported ↦ err event_unsupported
]

-- One transaction; `false` for an event that was consumed before.
unfoldable pub consume_run_event : RunEvent → Uuid → Time → Db → Result Error (Bool × Db)
consume_run_event e new_id now d =
    let seen = record d { inbox = e.id ∷ d.inbox } in
    if elem e.id d.inbox then ok (false, d) else do
      r ← or_raise (lookup e.run_id d.runs) run_not_found
      raise_if (not (is_bound e r)) event_invalid
      d' ← apply_event e r new_id now seen
      ok (true, d')
