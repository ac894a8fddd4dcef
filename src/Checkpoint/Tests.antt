-- ===== src/Checkpoint/Tests.antt =====
-- Runs of the Checkpoint API on concrete inputs.
use porfirium.Prelude.{
  ℕ, ◌+◌, ◌≡◌, refl, Option, some, List, [], ◌∷◌, Uuid, Digest, length, lookup, put, Result,
  Returns, ok, err, arith, map,
}
use mathlib.Core.List.{foldl}
use Prim.Native.String.{String}
use porfirium.Checkpoint.Store.{
  Problem, Capability, Checkpoint, CheckpointRecord, Store, PutRequest, lease_stale,
  checkpoint_version_conflict, put_checkpoint, take_lease, find_replay, replayed, commit, committed,
  new_row, insert_checkpoint, max_version, version_taken, hash_of, same_hash, record_of,
  get_checkpoint, list_checkpoints, list_rows, insert_desc,
}
use porfirium.Checkpoint.Api.{PutBody, Metadata, checkpoint_put, authorize, permits, metadata}
use porfirium.Checkpoint.Lease.{here, put_checkpoint_fences}
use porfirium.Checkpoint.Versions.{IsConsistent, versions, put_checkpoint-IsConsistent}
use porfirium.Checkpoint.Commit.{put_checkpoint_commits, put_checkpoint_repeats}
use porfirium.Checkpoint.Payload.{IsAuthentic, checkpoint_put-IsAuthentic}

abbrev cause : ℕ → Uuid
cause key = key + 7000

abbrev empty : Store
empty = record { leases = []; checkpoints = []; idempotency = []; outbox = [] }

abbrev first : Capability
first = record {
  thread_id = 5;
  run_id = 10;
  attempt_id = 21;
  lease_epoch = 1;
  operations = "checkpoint:read" ∷ "checkpoint:write" ∷ [];
  user_id = some 1;
  conversation_id = some 2;
  trace_id = some 99;
}

-- The next attempt of the same run.
abbrev second : Capability
second = record first { attempt_id = 22; lease_epoch = 2 }

abbrev request : Uuid → ℕ → ℕ → PutRequest
request id expected key = record {
  checkpoint_id = id;
  expected_version = expected;
  serialization_version = 1;
  payload = 65 ∷ 66 ∷ [];
  payload_sha256 = 131;
  idempotency_key = key;
}

abbrev first_row : Checkpoint
first_row = record {
  thread_id = 5;
  run_id = 10;
  attempt_id = 21;
  lease_epoch = 1;
  version = 1;
  serialization_version = 1;
  payload = 65 ∷ 66 ∷ [];
  payload_sha256 = 131;
  created_at = 1000;
}

-- What the tests compute with.
runs : ℕ
unfolding put_checkpoint commit replayed take_lease find_replay insert_checkpoint max_version
    version_taken committed new_row hash_of same_hash record_of lookup put get_checkpoint
    list_checkpoints list_rows insert_desc versions checkpoint_put authorize permits metadata
runs = 0

abbrev store_of : {A : Type 0} → Result Problem (A × Store) → Store
store_of (ok (r, s)) = s
store_of (err e) = empty

abbrev put_first : Result Problem (CheckpointRecord × Store)
put_first = put_checkpoint cause first (request 100 0 8) 50 1000 empty

abbrev put_second : Result Problem (CheckpointRecord × Store)
put_second = put_checkpoint cause second (request 101 1 9) 51 1001 (store_of put_first)

abbrev second_row : Checkpoint
second_row = record first_row { version = 2; attempt_id = 22; lease_epoch = 2; created_at = 1001 }

put_first_ok : put_first ≡ ok (record_of 100 first_row, store_of put_first)
unfolding runs
put_first_ok = refl

put_second_ok : put_second ≡ ok (record_of 101 second_row, store_of put_second)
unfolding runs
put_second_ok = refl

version_conflict :
    put_checkpoint cause second (request 101 0 9) 51 1001 (store_of put_first)
    ≡ err (checkpoint_version_conflict 1)
unfolding runs
version_conflict = refl

abbrev version_numbers : List CheckpointRecord → List ℕ
version_numbers = map (λ r. r.version)

lists_newest_first : version_numbers (list_checkpoints 5 (store_of put_second)) ≡ 2 ∷ 1 ∷ []
unfolding runs
lists_newest_first = refl

put_checkpoint_fences_example :
    put_checkpoint cause first (request 102 2 11) 52 1002 (store_of put_second) ≡ err lease_stale
put_checkpoint_fences_example =
    put_checkpoint_fences cause second first (request 101 1 9) (request 102 2 11) 51 52 1001 1002
      (store_of put_first) (store_of put_second) (store_of put_second) put_second_ok here refl
      (omega arith)

empty-IsConsistent : IsConsistent empty
unfolding runs
empty-IsConsistent thread = refl

put_checkpoint-IsConsistent_example : IsConsistent (store_of put_first)
put_checkpoint-IsConsistent_example =
    put_checkpoint-IsConsistent cause first (request 100 0 8) 50 1000 empty (store_of put_first)
      empty-IsConsistent put_first_ok

put_checkpoint_commits_example : Returns put_first λ (r, s').
    (r.version ≡ 0 + 1)
    × (r.payload ≡ 65 ∷ 66 ∷ [])
    × (get_checkpoint 5 100 s' ≡ ok r)
    × (length s'.outbox ≡ length empty.outbox + 1)
unfolding runs
put_checkpoint_commits_example =
    put_checkpoint_commits cause first (request 100 0 8) 50 1000 empty
      {t = (10, record { attempt_id = 21; lease_epoch = 1 }) ∷ []} (omega arith) refl refl refl refl
      (omega arith)

put_checkpoint_repeats_example :
    put_checkpoint cause first (request 100 0 8) 60 2000 (store_of put_first)
    ≡ ok (record_of 100 first_row, store_of put_first)
put_checkpoint_repeats_example =
    put_checkpoint_repeats cause first (request 100 0 8) 50 60 1000 2000 empty (store_of put_first)
      put_first_ok

abbrev decode : String → Option (List ℕ)
decode text = some (65 ∷ 66 ∷ [])

abbrev sha256 : List ℕ → Digest
sha256 bytes = foldl ◌+◌ 0 bytes

abbrev body : PutBody
body = record {
  run_id = 10;
  attempt_id = 21;
  lease_epoch = 1;
  expected_version = 0;
  serialization_version = 1;
  payload = "QUI=";
  payload_sha256 = 131;
}

abbrev api_put : Result Problem (Metadata × Store)
api_put = checkpoint_put cause decode sha256 5 100 body first 8 50 1000 empty

api_put_ok : api_put ≡ ok (metadata (record_of 100 first_row), store_of api_put)
unfolding runs
api_put_ok = refl

empty-IsAuthentic : IsAuthentic sha256 []
unfolding runs
empty-IsAuthentic id row e = cc

checkpoint_put-IsAuthentic_example : IsAuthentic sha256 (store_of api_put).checkpoints
checkpoint_put-IsAuthentic_example =
    checkpoint_put-IsAuthentic cause decode sha256 5 100 body first 8 50 1000 empty
      (store_of api_put) empty-IsAuthentic api_put_ok
