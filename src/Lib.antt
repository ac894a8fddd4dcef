-- ===== src/Lib.antt =====
-- Porfirium: a platform that runs agents in containers on behalf of users.
--
-- The Conversation Service shows a user the messages of a conversation; a new message requests a
-- run of the Agent Runner, which schedules attempts of it as containers, retries lost attempts,
-- cancels, suspends and completes runs; an attempt talks to the platform through the Agent
-- Runtime API, whose events the Conversation Service and the Runner consume; it stores its state
-- through the Checkpoint API, whose outbox confirms the checkpoint to the Runner, as that of the
-- Conversation Service confirms the messages. The Agent Registry keeps the published releases of
-- the agents that runs execute, the Configuration Service the settings they run with, and
-- Identity Delegation issues the tokens with which a run may call tools for a user. The services
-- share no memory: each keeps its own database and tells the others by events of an outbox.
--
-- Prelude: Boolean tests, lists, tables of a database and results, which the parts share.
-- Checkpoint: services/checkpoint-api/checkpoint_api. Store is store.py over the tables of
--   migrations (`put_checkpoint`, `get_checkpoint`, `list_checkpoints`), Api the handlers of
--   main.py.
-- Runner: services/agent-runner/agent_runner. State is the tables and models.py, Admission
--   `admit`, Attempts `schedule`, `_start_attempt`, `_fail_start` and capacity.py, Cancellation
--   `cancel`, Suspension `suspend`, Loss `reconcile` and `_handle_attempt_loss`, Completion
--   completion.py. Steps is the relation of all transactions in any order.
-- Conversation: services/conversation-service/conversation_service. State is the tables,
--   domain.py and `_owned` and `_present` of store.py, Requests `create_conversation`,
--   `create_message` and `answer_input`, Events `project` with `validate_completion`. Steps is
--   the relation of all transactions in any order.
-- Registry: services/agent-registry/agent_registry. State is the tables that publication.py and
--   lifecycle.py use, Publication `publish_release` and `_store_release`, Lifecycle
--   `set_default_release` and `deprecate_release`. Steps is their relation in any order. Access
--   is `grant_access` and `revoke_access` of access.py, Resolution `resolve_run_specification`.
-- RuntimeApi: services/agent-runtime-api/agent_runtime_api. State is the frames of
--   packages/contracts/protobuf/porfirium/runtime/v1/runtime.proto and the tables, Events
--   `_validate_identity` and `_event` of runtime.py, Accept `_activate` and `_accept`, Tools
--   `_call_tool`, Connect one round of `connect`. Steps is the relation of their transactions in
--   any order.
-- Configuration: services/configuration-service/configuration_service. Documents is domain.py,
--   Revisions store.py (`create_revision`, `get_revision`), Resolve the handlers of main.py. What
--   the driver gives for a `jsonb` is a parameter; a handler that fails after a commit keeps it.
-- Identity: services/identity-delegation/identity_delegation. Tokens is tokens.py, Grants
--   store.py, Policy policy.py, Service and Exchange the handlers of main.py, Claims how they
--   read JSON.
--
-- A transaction is a function from the database to a result with the new database; an error rolls
-- it back. Transactions are serial, as their row locks and advisory locks make them; a method
-- with two transactions is two functions, between which others may come. UUIDs, digests,
-- idempotency keys and times are natural numbers. The clock, new UUIDs and what a container
-- backend says are arguments. SHA-256, HMAC, Base64, JSON Schema and uuid5 are parameters. A row
-- of a table stands behind its primary key in an association list in insertion order. Every
-- function is structural recursion; there is no fuel.
--
-- Not modelled: readers of the Conversation Service, the manifests of the Registry, the HTTP
-- framework, NATS, the publishing loops, the gateways and `decode_capability` of the Agent
-- Runtime API, retention, readiness, migrations, the signature of capabilities and
-- specifications, the container commands, dead letters.
pub mod Checkpoint
pub mod Configuration
pub mod Conversation
pub mod Identity
pub mod Prelude
pub mod Registry
pub mod Runner
pub mod RuntimeApi
