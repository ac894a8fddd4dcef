-- ===== src/Checkpoint/Payload.antt =====
-- What the handlers of services/checkpoint-api/checkpoint_api/main.py let through to the store.
use porfirium.Prelude.{
  ℕ, ◌≤◌, ◌≡◌, inl, inr, true, Option, some, List, Uuid, Digest, Key, Time, ◌==◌, length, Table,
  lookup, lookup-put, put, ok, arith, Bool-cases, Option-cases, Result-cases,
}
use Prim.Native.String.{String}
use porfirium.Checkpoint.Store.{
  Capability, Checkpoint, CheckpointRecord, Store, PutRequest, put_checkpoint, new_row,
}
use porfirium.Checkpoint.Api.{
  authorize, permits, PutBody, Metadata, checkpoint_put, max_payload_bytes,
}
use porfirium.Checkpoint.Versions.{put_checkpoint-rows}

module _ (sha256 : List ℕ → Digest) where
  -- Every stored payload fits the limit and has the digest that is stored beside it.
  abbrev pub IsAuthentic : Table Checkpoint → Type 0
  IsAuthentic rows =
      (id : Uuid) (row : Checkpoint)
      → lookup id rows ≡ some row
      → (length row.payload ≤ max_payload_bytes) × (sha256 row.payload ≡ row.payload_sha256)

  put-IsAuthentic :
      (id : Uuid) (row : Checkpoint) (rows : Table Checkpoint)
      → length row.payload ≤ max_payload_bytes
      → sha256 row.payload ≡ row.payload_sha256
      → IsAuthentic rows
      → IsAuthentic (put id row rows)
  put-IsAuthentic id row rows small same h j found e = elim (Bool-cases (id == j)) [
    | inl here ↦ ground (arith, lookup-put id j row rows)
    | inr other ↦ h j found (ground (arith, lookup-put id j row rows))
  ]

module _ (cause : Key → Uuid) (decode : String → Option (List ℕ)) (sha256 : List ℕ → Digest) where
  abbrev request : Uuid → PutBody → Key → List ℕ → PutRequest
  request id body key payload = record {
    checkpoint_id = id;
    expected_version = body.expected_version;
    serialization_version = body.serialization_version;
    payload = payload;
    payload_sha256 = body.payload_sha256;
    idempotency_key = key;
  }

  -- A put through the API succeeds only under a capability for the thread, with the write
  -- operation and the run, attempt and epoch of the body, for a payload that decodes, fits the limit
  -- and has the stated digest; and it is then the store's put of that payload.
  checkpoint_put_passed :
      (thread id : Uuid) (body : PutBody) (c : Capability) (key : Key) (event_id : Uuid)
      (now : Time) (s s' : Store) {m : Metadata}
      → checkpoint_put cause decode sha256 thread id body c key event_id now s ≡ ok (m, s')
      → (payload : List ℕ) × (r : CheckpointRecord) × (c.thread_id ≡ thread)
        × (permits c.operations "checkpoint:write" ≡ true)
        × (body.run_id ≡ c.run_id)
        × (body.attempt_id ≡ c.attempt_id)
        × (body.lease_epoch ≡ c.lease_epoch)
        × (decode body.payload ≡ some payload)
        × (length payload ≤ max_payload_bytes)
        × (sha256 payload ≡ body.payload_sha256)
        × (put_checkpoint cause c (request id body key payload) event_id now s ≡ ok (r, s'))
  unfolding checkpoint_put authorize
  checkpoint_put_passed thread id body c key event_id now s s' e =
      elim (Option-cases (decode body.payload)) [
        | inl n ↦ absurd (ground arith)
        | inr (p, d) ↦
            elim (Result-cases (put_checkpoint cause c (request id body key p) event_id now s)) [
              | inl (x, o) ↦ (
                p,
                x.0,
                ground arith,
                ground arith,
                ground arith,
                ground arith,
                ground arith,
                d,
                ground arith,
                ground arith,
                ground arith,
              )
              | inr (x, o) ↦ absurd (ground arith)
            ]
      ]

  -- A put through the API keeps every stored payload within the limit and true to its digest.
  pub checkpoint_put-IsAuthentic :
      (thread id : Uuid) (body : PutBody) (c : Capability) (key : Key) (event_id : Uuid)
      (now : Time) (s s' : Store) {m : Metadata}
      → IsAuthentic sha256 s.checkpoints
      → checkpoint_put cause decode sha256 thread id body c key event_id now s ≡ ok (m, s')
      → IsAuthentic sha256 s'.checkpoints
  unfolding new_row
  checkpoint_put-IsAuthentic thread id body c key event_id now s s' h e =
      let (p, r, _, _, _, _, _, _, small, same, done) =
        checkpoint_put_passed thread id body c key event_id now s s' e in
      elim (put_checkpoint-rows cause c (request id body key p) event_id now s s' done) [
        | inl old ↦ rw old h
        | inr (fresh, new) ↦ rw new (put-IsAuthentic sha256 id _ s.checkpoints small same h)
      ]
