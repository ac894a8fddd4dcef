-- ===== src/Checkpoint/Api.antt =====
-- The handlers of services/checkpoint-api/checkpoint_api/main.py: authorization and the checks of
-- the body in front of the store.
use porfirium.Prelude.{
  ℕ, ◌*◌, Bool, false, ◌||◌, not, Option, List, [], ◌∷◌, map, Uuid, Digest, Key, Time, ◌==◌, ltb,
  length, Result, ok, ◌>>=◌, ◌>>◌, raise_if, or_raise,
}
use Prim.Native.String.{String}
use text.Mathlib.Text.{◌==◌ as str_eq}
use porfirium.Checkpoint.Store.{
  Problem, checkpoint_forbidden, capability_claim_mismatch, payload_invalid, payload_too_large,
  payload_hash_mismatch, Capability, CheckpointRecord, Store, put_checkpoint, get_checkpoint,
  list_checkpoints,
}

abbrev pub max_payload_bytes : ℕ
max_payload_bytes = 1024 * 1024

unfoldable pub permits : List String → String → Bool
permits [] operation = false
permits (o ∷ os) operation = str_eq o operation || permits os operation

unfoldable pub authorize : Capability → Uuid → String → Result Problem (Unit {0})
authorize c thread operation =
    raise_if (not (c.thread_id == thread) || not (permits c.operations operation))
      checkpoint_forbidden

pub record Metadata : Type 0 where
  pub checkpoint_id : Uuid
  pub thread_id : Uuid
  pub version : ℕ
  pub serialization_version : Key
  pub payload_sha256 : Digest
  pub created_at : Time

unfoldable pub metadata : CheckpointRecord → Metadata
metadata r = record {
  checkpoint_id = r.checkpoint_id;
  thread_id = r.thread_id;
  version = r.version;
  serialization_version = r.serialization_version;
  payload_sha256 = r.payload_sha256;
  created_at = r.created_at;
}

pub record PutBody : Type 0 where
  pub run_id : Uuid
  pub attempt_id : Uuid
  pub lease_epoch : ℕ
  pub expected_version : ℕ
  pub serialization_version : Key
  pub payload : String
  pub payload_sha256 : Digest

unfoldable pub checkpoint_list : Uuid → Capability → Store → Result Problem (List Metadata)
checkpoint_list thread c s = do
  authorize c thread "checkpoint:read"
  ok (map metadata (list_checkpoints thread s))

-- The whole record stands for the metadata with the encoded payload beside it.
unfoldable pub checkpoint_get : Uuid → Uuid → Capability → Store → Result Problem CheckpointRecord
checkpoint_get thread id c s = do authorize c thread "checkpoint:read"; get_checkpoint thread id s

-- `decode` is base64 with validation, `sha256` the hexadecimal digest of the decoded bytes.
module _ (cause : Key → Uuid) (decode : String → Option (List ℕ)) (sha256 : List ℕ → Digest) where
  unfoldable pub checkpoint_put :
      Uuid
      → Uuid
      → PutBody
      → Capability
      → Key
      → Uuid
      → Time
      → Store
      → Result Problem (Metadata × Store)
  checkpoint_put thread id body c key event_id now s = do
    authorize c thread "checkpoint:write"
    raise_if
        (not (body.run_id == c.run_id)
          || not (body.attempt_id == c.attempt_id)
          || not (body.lease_epoch == c.lease_epoch))
        capability_claim_mismatch
    payload ← or_raise (decode body.payload) payload_invalid
    raise_if (ltb max_payload_bytes (length payload)) payload_too_large
    raise_if (not (sha256 payload == body.payload_sha256)) payload_hash_mismatch
    (r, s') ←
        put_checkpoint cause c
          (record {
            checkpoint_id = id;
            expected_version = body.expected_version;
            serialization_version = body.serialization_version;
            payload = payload;
            payload_sha256 = body.payload_sha256;
            idempotency_key = key;
          })
          event_id now s
    ok (metadata r, s')
