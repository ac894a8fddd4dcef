-- ===== src/Conversation/Tests.antt =====
-- Runs of the Conversation Service on concrete inputs.
use porfirium.Prelude.{
  ℕ, ◌≡◌, refl, true, Option, none, some, [], ◌∷◌, Uuid, lookup, put, update_where, length, arith,
  Result, ok, err,
}
use porfirium.Conversation.State.{
  Problem, Text, Conversation, Message, Role, MessageStatus, EventBody, CompletionData, Db, owned,
  find_request, sequences, present,
}
use porfirium.Conversation.Requests.{
  NewConversation, NewMessage, thread_taken, new_conversation, create_conversation, new_message,
  store_message, request_run, create_message,
}
use porfirium.Conversation.Events.{
  RuntimeEvent, validate_completion, chunks_of, require_streaming, count_messages, greatest,
  confirm_messages, proposal_of, insert_proposal, all_done, propose_result, started_message,
  start_message, add_delta, complete_row, confirm_completed, complete_message, presenting, handle,
  project,
}
use porfirium.Conversation.Steps.{Config, Steps, here, next, created, messaged, projected}
use porfirium.Conversation.Sequences.{IsSequenced, Steps-IsSequenced, countdown}
use porfirium.Conversation.Effects.{IsConfirmedOnce, confirmations}
use porfirium.Conversation.Endings.{
  ended_message_is_final, Steps-IsConfirmedOnce, project_once, create_message_repeats,
}

-- What the tests compute with.
runs : ℕ
unfolding lookup put update_where owned find_request sequences present thread_taken new_conversation
    create_conversation new_message store_message request_run create_message validate_completion
    chunks_of require_streaming count_messages greatest confirm_messages proposal_of insert_proposal
    all_done propose_result started_message start_message add_delta complete_row confirm_completed
    complete_message presenting handle project countdown confirmations
runs = 0

abbrev empty : Db
empty = record {
  conversations = [];
  messages = [];
  chunks = [];
  inputs = [];
  presented = [];
  requests = [];
  inbox = [];
  outbox = [];
  proposals = [];
  commitments = [];
}

abbrev config : Config
config = record {
  conversation_digest = λ p. p.thread_id;
  message_digest = λ p. p.message_id;
  answer_digest = λ a. a.run_id;
  text_digest = length;
  request_id = λ s. s;
}

abbrev db_of : {A : Type 0} → Result Problem (A × Db) → Db
db_of (ok (a, d)) = d
db_of (err e) = empty

abbrev title : Text
title = 72 ∷ []

abbrev conversation : NewConversation
conversation = record {
  thread_id = 3;
  release_id = 4;
  configuration_revision_id = none;
  title = title;
}

abbrev message : NewMessage
message = record { message_id = 20; run_id = 5; content = title; delegation_grant_id = 6 }

abbrev create_one : Result Problem ((Uuid × Conversation) × Db)
create_one = create_conversation config.conversation_digest 1 40 conversation 10 1000 empty

create_one_ok : create_one ≡ ok ((10, new_conversation 1 conversation 1000), db_of create_one)
unfolding runs
create_one_ok = refl

abbrev ask : Result Problem (((Uuid × Message) × ℕ) × Db)
ask = create_message config.message_digest 1 10 41 message 50 1001 (db_of create_one)

ask_ok : ask ≡ ok (((20, new_message 10 message 1001), 1), db_of ask)
unfolding runs
ask_ok = refl

-- The run answers with one message in one chunk, and then proposes it as its result.
abbrev event : Uuid → EventBody → RuntimeEvent
event id body = record {
  id = id;
  conversation_id = 10;
  user_id = 1;
  run_id = 5;
  thread_id = 3;
  traceparent = [];
  correlation_id = 7;
  causation_id = 8;
  body = body;
}

abbrev projects : RuntimeEvent → Db → Result Problem (Option ℕ × Db)
projects e = project config.request_id config.text_digest e 90 1002

abbrev started : Db
started = db_of (projects (event 60 (EventBody.message_started (some 30))) (db_of ask))

abbrev said : Db
said = db_of (projects (event 61 (EventBody.message_delta (some 30) 1 title)) started)

abbrev metadata : CompletionData
metadata = record { content = title; content_bytes = 1; chunk_count = 1; content_sha256 = 1 }

abbrev finished : RuntimeEvent
finished = event 62 (EventBody.message_completed (some 30) (some metadata) [] [])

abbrev finish_one : Result Problem (Option ℕ × Db)
finish_one = projects finished said

finish_one_ok : finish_one ≡ ok (some 4, db_of finish_one)
unfolding runs
finish_one_ok = refl

abbrev proposed : RuntimeEvent
proposed = event 63 (EventBody.result_proposed (30 ∷ []) true)

abbrev propose_one : Result Problem (Option ℕ × Db)
propose_one = projects proposed (db_of finish_one)

propose_one_ok : propose_one ≡ ok (some 5, db_of propose_one)
unfolding runs
propose_one_ok = refl

confirmed_run_is_told : confirmations 5 (db_of propose_one).outbox ≡ 1
unfolding runs
confirmed_run_is_told = refl

until_asked : Steps config empty (db_of ask)
until_asked =
    next (next here (created 1 40 conversation 10 1000 _ create_one_ok))
      (messaged 1 10 41 message 50 1001 _ ask_ok)

after_finish : Steps config (db_of finish_one) (db_of propose_one)
after_finish = next here (projected proposed 90 1002 _ propose_one_ok)

empty-IsSequenced : IsSequenced empty
unfolding runs
empty-IsSequenced c = refl

finished-IsConfirmedOnce : IsConfirmedOnce (db_of finish_one)
unfolding runs
finished-IsConfirmedOnce run = omega arith

abbrev answer : Message
answer = record {
  conversation_id = 10;
  run_id = 5;
  role = Role.assistant;
  status = MessageStatus.completed;
  content = title;
  finish_reason = some [];
  usage = [];
  created_at = 1002;
  completed_at = some 1002;
}

Steps-IsSequenced_example : IsSequenced (db_of ask)
Steps-IsSequenced_example = Steps-IsSequenced empty-IsSequenced until_asked

ended_message_is_final_example : lookup 30 (db_of propose_one).messages ≡ some answer
unfolding runs
ended_message_is_final_example = ended_message_is_final 30 answer after_finish refl refl

Steps-IsConfirmedOnce_example : IsConfirmedOnce (db_of propose_one)
Steps-IsConfirmedOnce_example = Steps-IsConfirmedOnce finished-IsConfirmedOnce after_finish

project_once_example :
    project config.request_id config.text_digest proposed 91 1003 (db_of propose_one)
    ≡ ok (none, db_of propose_one)
project_once_example =
    project_once config.request_id config.text_digest proposed 90 91 1002 1003 (db_of finish_one)
      (db_of propose_one) propose_one_ok

create_message_repeats_example :
    create_message config.message_digest 1 10 41 message 51 1009 (db_of ask)
    ≡ ok (((20, new_message 10 message 1001), 1), db_of ask)
create_message_repeats_example =
    create_message_repeats config.message_digest 1 10 41 message 50 51 1001 1009 (db_of create_one)
      (db_of ask) ask_ok
