-- ===== src/RuntimeApi/Tests.antt =====
-- Runs of the Agent Runtime API on concrete inputs.
use porfirium.Prelude.{
  ℕ, ◌≡◌, ◌≢◌, ◌⊎◌, inl, refl, true, false, none, some, [], ◌∷◌, Uuid, Time, lookup, put, Result,
  ok, err, codes, null, end, get, set_field, contains, arith,
}
use porfirium.RuntimeApi.State.{
  Error, stale_epoch, tool_gateway_failed, tool_outcome_ambiguous, message_started, tool_call,
  AgentFrame, RunCapability, ToolCall, Db, find_frame, find_sequence, find_invocation,
}
use porfirium.RuntimeApi.Events.{
  Library, validate_identity, split_version, trace_match, take_hex, all_zero, event_names,
  event_data, event_of, causation_id, pop,
}
use porfirium.RuntimeApi.Accept.{
  activate, take_over, check_payload, store_event, accept_new, accept_payload, accept,
}
use porfirium.RuntimeApi.Tools.{
  Reservation, execute, ToolExecution, check_tool_call, stored_answer, reserve, complete_rows,
  complete_invocation,
}
use porfirium.RuntimeApi.Steps.{System, activates, accepts, reserves, completes, Steps, here, next}
use porfirium.RuntimeApi.Numbered.{IsNumbered, Steps-IsNumbered}
use porfirium.RuntimeApi.Stale.{activate_shuts_out}
use porfirium.RuntimeApi.Redelivery.{accept_repeats}
use porfirium.RuntimeApi.Invocations.{reserve_once}
use porfirium.RuntimeApi.Connect.{Outside, connected, refused, check_frame, round}
use porfirium.RuntimeApi.Answers.{Answers}
use porfirium.RuntimeApi.Failures.{gateway_failure_goes_on}
use porfirium.RuntimeApi.Rounds.{Made, round-Made}

-- What the tests compute with.
runs : ℕ
unfolding lookup put get set_field contains find_frame find_sequence find_invocation event_names
    event_data event_of causation_id pop activate take_over check_payload store_event accept_new
    accept_payload accept validate_identity split_version trace_match take_hex all_zero
    check_tool_call stored_answer reserve complete_rows complete_invocation
runs = 0

abbrev library : Library
library = record {
  read_uuid = λ t. elim t [ [] ↦ none | u ∷ us ↦ some u ];
  show_uuid = λ u. u ∷ [];
  read_int = λ t. some 1;
  hex_uuid = λ t. 5;
  digest_uuid = λ t. 6;
  utf8 = λ t. some t;
  sha256_hex = λ t. t;
  message_dict = λ p. end;
  tool_digest = λ t fs. 9;
  utf8_bytes = λ t. 3;
  json_bytes = λ v. 4;
}

abbrev empty : Db
empty = record { attempts = []; frames = []; outbox = []; invocations = [] }

abbrev first : RunCapability
first = record {
  user_id = 1;
  conversation_id = 2;
  thread_id = 3;
  run_id = 10;
  attempt_id = 11;
  lease_epoch = 1;
  deadline = 900;
  models = [];
  trace_id = codes "0af7651916cd43dd8448eb211c80319c";
  tools = codes "s" ∷ [];
}

abbrev second : RunCapability
second = record first { attempt_id = 12; lease_epoch = 2 }

abbrev frame : AgentFrame
frame = record {
  identity = record {
    protocol_version = codes "1.0";
    run_id = 10 ∷ [];
    attempt_id = 11 ∷ [];
    lease_epoch = 1;
    sequence = 1;
    idempotency_key = 40 ∷ [];
    traceparent = codes "00-0af7651916cd43dd8448eb211c80319c-b7ad6b7169203331-01";
  };
  payload = some (message_started (7 ∷ []) (codes "text/plain"));
}

abbrev call : ToolCall
call = record { invocation_id = 50 ∷ []; tool = codes "s"; arguments = end }

abbrev db_of : {A : Type 0} → Result Error (A × Db) → Db
db_of (ok (a, d)) = d
db_of (err p) = empty

abbrev start : System
start = record { sessions = []; db = empty }

abbrev active : System
active = record { sessions = first ∷ []; db = db_of (activate first 100 empty) }

abbrev sent : System
sent = record { sessions = first ∷ []; db = db_of (accept library first frame 60 101 active.db) }

abbrev reserved : System
reserved = record { sessions = first ∷ []; db = db_of (reserve library true first call sent.db) }

abbrev taken : System
taken = record { sessions = second ∷ first ∷ []; db = db_of (activate second 102 reserved.db) }

active_ok : activate first 100 start.db ≡ ok (0, active.db)
unfolding runs
active_ok = refl

sent_ok : accept library first frame 60 101 active.db ≡ ok (some 60, sent.db)
unfolding runs
sent_ok = refl

reserved_ok : reserve library true first call sent.db ≡ ok (execute, reserved.db)
unfolding runs
reserved_ok = refl

taken_ok : activate second 102 reserved.db ≡ ok (0, taken.db)
unfolding runs
taken_ok = refl

to_sent : Steps library start sent
to_sent =
    next (next here (activates first 100 0 active_ok refl))
      (accepts first frame 60 101 (some 60) (inl refl) sent_ok refl)

from_sent : Steps library sent taken
from_sent =
    next (next here (reserves true first call execute (inl refl) reserved_ok refl))
      (activates second 102 0 taken_ok refl)

start-IsNumbered : IsNumbered start
unfolding runs
start-IsNumbered run = (tt, tt)

Steps-IsNumbered_example : IsNumbered sent
Steps-IsNumbered_example = Steps-IsNumbered library start sent start-IsNumbered to_sent

activate_shuts_out_example :
    ((f : AgentFrame) (id : Uuid) (at : Time)
      → (p : Error) × (accept library first f id at taken.db ≡ err p))
    × ((at : Time) → (p : Error) × (activate first at taken.db ≡ err p))
activate_shuts_out_example =
    activate_shuts_out library second 102 0 reserved taken taken taken_ok here first refl
      (omega arith)

accept_repeats_example :
    (accept library first frame 61 103 taken.db ≡ ok (some 60, taken.db))
    ⊎ (accept library first frame 61 103 taken.db ≡ err stale_epoch)
accept_repeats_example =
    accept_repeats library first frame 60 61 101 103 active sent taken (some 60) sent_ok from_sent

checked : check_tool_call library true first call ≡ ok 50
unfolding runs
checked = refl

abbrev answer : ToolExecution
answer = record { result = null; is_error = false }

abbrev answered : System
answered = record reserved { db = db_of (complete_invocation library first 50 answer reserved.db) }

answered_ok : complete_invocation library first 50 answer reserved.db ≡ ok (answer, answered.db)
unfolding runs
answered_ok = refl

again_ok : reserve library true first call answered.db ≡ ok (Reservation.replay answer, answered.db)
unfolding runs
again_ok = refl

reserve_once_example : Reservation.replay answer ≢ execute
reserve_once_example =
    reserve_once library true true first first call call sent reserved answered answered.db 50
      (Reservation.replay answer) reserved_ok
      (next here (completes first 50 answer answer answered_ok refl)) checked checked refl again_ok

abbrev outside : Outside
outside = record {
  byte_size = λ f. 100;
  decode_capability = λ t. some first;
  has_model_gateway = true;
  has_tool_gateway = true;
  respond = λ call. ok [];
  invoke = λ call. ok answer;
}

round-Made_example :
    Made library active (round library outside (connected first) frame 60 101 active.db)
    × Answers frame
        (connected first)
        (round library outside (connected first) frame 60 101 active.db)
round-Made_example = round-Made library outside (connected first) frame 60 101 active (inl refl)

-- The tool gateway cannot be reached.
abbrev unreachable : Outside
unreachable = record outside { invoke = λ call. err tool_gateway_failed }

abbrev call_frame : AgentFrame
call_frame = record frame { payload = some (tool_call call) }

call_frame_checked : check_frame library unreachable first call_frame ≡ ok tt
unfolding runs
call_frame_checked = refl

gateway_failure_goes_on_example :
    (round library unreachable (connected first) call_frame 61 104 sent.db
      ≡ ((connected first, refused tool_gateway_failed ∷ []), reserved.db))
    × (round library unreachable (connected first) call_frame 62 105 reserved.db
        ≡ ((connected first, refused tool_outcome_ambiguous ∷ []), reserved.db))
gateway_failure_goes_on_example =
    gateway_failure_goes_on library unreachable first call_frame call 61 62 50 104 105 sent.db
      reserved.db tool_gateway_failed refl call_frame_checked refl checked reserved_ok refl refl
      refl
