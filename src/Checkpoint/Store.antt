-- ===== src/Checkpoint/Store.antt =====
-- services/checkpoint-api/checkpoint_api/store.py over the tables of migrations/*.sql. A call is
-- one transaction: an error rolls it back. Times and new event ids are arguments.
use porfirium.Prelude.{
  ℕ, ◌+◌, Bool, false, ◌&&◌, ◌||◌, not, Option, none, some, List, [], ◌∷◌, ◌++◌, Uuid, Digest, Key,
  Time, ◌==◌, ltb, if◌then◌else◌, is_some, length, find, Table, lookup, put, Result, ok, err, ◌>>=◌,
  ◌>>◌, raise_if, or_raise,
}
use Prim.Native.String.{String}

pub data Problem : Type 0 where
  lease_stale idempotency_conflict : Problem
  -- with the current version as its detail
  checkpoint_version_conflict : ℕ → Problem
  checkpoint_not_found checkpoint_forbidden capability_claim_mismatch : Problem
  payload_invalid payload_too_large payload_hash_mismatch : Problem
  -- the database refuses the row, and the code does not catch that
  integrity_violation : Problem

pub record Capability : Type 0 where
  pub thread_id : Uuid
  pub run_id : Uuid
  pub attempt_id : Uuid
  pub lease_epoch : ℕ
  pub operations : List String
  pub user_id : Option Uuid
  pub conversation_id : Option Uuid
  -- the number that the 32 hexadecimal digits stand for; `none` is the empty string
  pub trace_id : Option Uuid

pub record Lease : Type 0 where
  pub attempt_id : Uuid
  pub lease_epoch : ℕ

-- A row of `checkpoints` behind its `checkpoint_id`.
pub record Checkpoint : Type 0 where
  pub thread_id : Uuid
  pub run_id : Uuid
  pub attempt_id : Uuid
  pub lease_epoch : ℕ
  pub version : ℕ
  pub serialization_version : Key
  pub payload : List ℕ
  pub payload_sha256 : Digest
  pub created_at : Time

pub record CheckpointRecord : Type 0 where
  pub checkpoint_id : Uuid
  pub thread_id : Uuid
  pub version : ℕ
  pub serialization_version : Key
  pub payload : List ℕ
  pub payload_sha256 : Digest
  pub created_at : Time

-- The four parts of the text `request_hash`. Only the third may hold a colon, so the text
-- determines them.
pub record RequestHash : Type 0 where
  pub checkpoint_id : Uuid
  pub expected_version : ℕ
  pub serialization_version : Key
  pub payload_sha256 : Digest

pub record Replay : Type 0 where
  pub run_id : Uuid
  pub idempotency_key : Key
  pub request_hash : RequestHash
  pub checkpoint_id : Uuid

-- The envelope `porfirium.run.checkpoint_committed.v1`, its constant fields left out.
pub record Committed : Type 0 where
  pub id : Uuid
  pub time : Time
  pub user_id : Uuid
  pub conversation_id : Uuid
  pub thread_id : Uuid
  pub run_id : Uuid
  pub attempt_id : Uuid
  pub lease_epoch : ℕ
  pub correlation_id : Uuid
  pub causation_id : Uuid
  pub checkpoint_id : Uuid
  pub checkpoint_version : ℕ
  pub payload_sha256 : Digest

pub record Store : Type 0 where
  pub leases : Table Lease
  pub checkpoints : Table Checkpoint
  pub idempotency : List Replay
  pub outbox : List Committed

pub record PutRequest : Type 0 where
  pub checkpoint_id : Uuid
  pub expected_version : ℕ
  pub serialization_version : Key
  pub payload : List ℕ
  pub payload_sha256 : Digest
  pub idempotency_key : Key

unfoldable pub record_of : Uuid → Checkpoint → CheckpointRecord
record_of id row = record {
  checkpoint_id = id;
  thread_id = row.thread_id;
  version = row.version;
  serialization_version = row.serialization_version;
  payload = row.payload;
  payload_sha256 = row.payload_sha256;
  created_at = row.created_at;
}

unfoldable pub same_hash : RequestHash → RequestHash → Bool
same_hash a b =
    a.checkpoint_id == b.checkpoint_id
    && a.expected_version == b.expected_version
    && a.serialization_version == b.serialization_version
    && a.payload_sha256 == b.payload_sha256

-- `SELECT … FOR UPDATE`, then insert, take over or refuse. The column checks `lease_epoch > 0`.
unfoldable pub take_lease : Capability → Table Lease → Result Problem (Table Lease)
take_lease c leases = elim (lookup c.run_id leases) [
  | none ↦
      if c.lease_epoch == 0
      then err integrity_violation
      else ok
          (put c.run_id (record { attempt_id = c.attempt_id; lease_epoch = c.lease_epoch }) leases)
  | some lease ↦
      if ltb lease.lease_epoch c.lease_epoch
      then ok
          (put c.run_id (record { attempt_id = c.attempt_id; lease_epoch = c.lease_epoch }) leases)
      else if not (lease.attempt_id == c.attempt_id) || not (lease.lease_epoch == c.lease_epoch)
      then err lease_stale
      else ok leases
]

unfoldable pub find_replay : Uuid → Key → List Replay → Option Replay
find_replay run key = find (λ r. r.run_id == run && r.idempotency_key == key)

-- `SELECT COALESCE(MAX(version), 0) FROM checkpoints WHERE thread_id=thread`
unfoldable pub max_version : Uuid → Table Checkpoint → ℕ
max_version thread [] = 0
max_version thread ((_, row) ∷ rows) =
    let rest = max_version thread rows in
    if row.thread_id == thread && ltb rest row.version then row.version else rest

-- Whether `UNIQUE(thread_id, version)` forbids a row.
unfoldable pub version_taken : Uuid → ℕ → Table Checkpoint → Bool
version_taken thread version [] = false
version_taken thread version ((_, row) ∷ rows) =
    (row.thread_id == thread && row.version == version) || version_taken thread version rows

-- The bound of the column `payload`.
abbrev pub max_octets : ℕ
max_octets = 1048576

-- `INSERT INTO checkpoints`, under the constraints of the table: the bounds of the columns `lease_epoch`,
-- `version` and `payload`, the primary key, and `UNIQUE(thread_id, version)`. The widths of
-- the texts are left to the API, which validates them.
unfoldable pub insert_checkpoint :
    Uuid → Checkpoint → Table Checkpoint → Result Problem (Table Checkpoint)
insert_checkpoint id row rows = do
  raise_if (row.lease_epoch == 0 || row.version == 0) integrity_violation
  raise_if (ltb max_octets (length row.payload)) integrity_violation
  raise_if (is_some (lookup id rows)) integrity_violation
  raise_if (version_taken row.thread_id row.version rows) integrity_violation
  ok (put id row rows)

abbrev pub or_else : Option Uuid → Uuid → Uuid
or_else none d = d
or_else (some a) d = a

unfoldable pub new_row : Capability → PutRequest → Time → ℕ → Checkpoint
new_row c q now version = record {
  thread_id = c.thread_id;
  run_id = c.run_id;
  attempt_id = c.attempt_id;
  lease_epoch = c.lease_epoch;
  version = version;
  serialization_version = q.serialization_version;
  payload = q.payload;
  payload_sha256 = q.payload_sha256;
  created_at = now;
}

unfoldable pub hash_of : PutRequest → RequestHash
hash_of q = record {
  checkpoint_id = q.checkpoint_id;
  expected_version = q.expected_version;
  serialization_version = q.serialization_version;
  payload_sha256 = q.payload_sha256;
}

-- `cause` is uuid5 of the idempotency key; `event_id` is uuid4; `now` is the database's clock.
module _ (cause : Key → Uuid) where
  unfoldable pub committed : Capability → PutRequest → Uuid → Time → ℕ → Committed
  committed c q event_id now version = record {
    id = event_id;
    time = now;
    user_id = or_else c.user_id c.run_id;
    conversation_id = or_else c.conversation_id c.thread_id;
    thread_id = c.thread_id;
    run_id = c.run_id;
    attempt_id = c.attempt_id;
    lease_epoch = c.lease_epoch;
    correlation_id = or_else c.trace_id c.run_id;
    causation_id = cause q.idempotency_key;
    checkpoint_id = q.checkpoint_id;
    checkpoint_version = version;
    payload_sha256 = q.payload_sha256;
  }

  -- The part of `put_checkpoint` after the replay test.
  unfoldable pub commit :
      Capability → PutRequest → Uuid → Time → Store → Result Problem (CheckpointRecord × Store)
  unfolding committed new_row hash_of
  commit c q event_id now s = do
    let current = max_version c.thread_id s.checkpoints
    raise_if (not (current == q.expected_version)) (checkpoint_version_conflict current)
    let row = new_row c q now (current + 1)
    rows ← insert_checkpoint q.checkpoint_id row s.checkpoints
    ok (
      record_of q.checkpoint_id row,
      record s {
        checkpoints = rows;
        idempotency =
            record {
              run_id = c.run_id;
              idempotency_key = q.idempotency_key;
              request_hash = hash_of q;
              checkpoint_id = q.checkpoint_id;
            }
            ∷ s.idempotency;
        outbox = s.outbox ++ committed c q event_id now (current + 1) ∷ [];
      },
    )

  -- What a repeated request gets: the row that it made. `_record(None)` would raise.
  unfoldable pub replayed : PutRequest → Replay → Store → Result Problem (CheckpointRecord × Store)
  unfolding hash_of
  replayed q r s = do
    raise_if (not (same_hash r.request_hash (hash_of q))) idempotency_conflict
    row ← or_raise (lookup r.checkpoint_id s.checkpoints) integrity_violation
    ok (record_of r.checkpoint_id row, s)

  unfoldable pub put_checkpoint :
      Capability → PutRequest → Uuid → Time → Store → Result Problem (CheckpointRecord × Store)
  put_checkpoint c q event_id now s = do
    leases ← take_lease c s.leases
    let held = record s { leases = leases }
    elim (find_replay c.run_id q.idempotency_key s.idempotency) [
      | some r ↦ replayed q r held
      | none ↦ commit c q event_id now held
    ]

unfoldable pub get_checkpoint : Uuid → Uuid → Store → Result Problem CheckpointRecord
get_checkpoint thread id s = elim (lookup id s.checkpoints) [
  | none ↦ err checkpoint_not_found
  | some row ↦ if row.thread_id == thread then ok (record_of id row) else err checkpoint_not_found
]

-- `ORDER BY version DESC`
unfoldable pub insert_desc : CheckpointRecord → List CheckpointRecord → List CheckpointRecord
insert_desc x [] = x ∷ []
insert_desc x (y ∷ ys) = if ltb x.version y.version then y ∷ insert_desc x ys else x ∷ y ∷ ys

unfoldable pub list_rows : Uuid → Table Checkpoint → List CheckpointRecord
list_rows thread [] = []
list_rows thread ((id, row) ∷ rows) =
    let rest = list_rows thread rows in
    if row.thread_id == thread then insert_desc (record_of id row) rest else rest

unfoldable pub list_checkpoints : Uuid → Store → List CheckpointRecord
list_checkpoints thread s = list_rows thread s.checkpoints
