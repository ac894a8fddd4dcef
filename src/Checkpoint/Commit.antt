-- ===== src/Checkpoint/Commit.antt =====
-- When a put commits, and what a repeated request gets
-- (services/checkpoint-api/checkpoint_api/store.py).
use porfirium.Prelude.{
  ℕ, ◌+◌, ◌<◌, ◌≤◌, ltb, ◌==◌, ◌≡◌, refl, inl, inr, false, none, [], ◌∷◌, Uuid, Key, Time, length,
  length-append, Table, lookup, lookup-put, Option-cases, Returns, ==_refl, ok, arith,
}
use porfirium.Checkpoint.Lease.{put_checkpoint-take_lease, take_lease_again}
use porfirium.Checkpoint.Store.{
  Capability, Lease, Checkpoint, CheckpointRecord, Store, PutRequest, take_lease, find_replay,
  new_row, max_version, version_taken, insert_checkpoint, replayed, commit, put_checkpoint,
  get_checkpoint, record_of, same_hash, hash_of, max_octets,
}

version_taken-above :
    (thread : Uuid) (v : ℕ) (rows : Table Checkpoint)
    → max_version thread rows < v
    → version_taken thread v rows ≡ false
unfolding version_taken max_version
version_taken-above thread v [] h = refl
version_taken-above thread v ((id, row) ∷ rows) h =
    ground (arith, version_taken-above thread v rows)

module _ (cause : Key → Uuid) where
  -- With a positive epoch, a lease that it may take, an unused key, an unused checkpoint id, the thread's
  -- current version and a payload of at most 1 MiB, a put succeeds, returns the next version and the payload,
  -- the checkpoint can be read back, and one event is enqueued.
  pub put_checkpoint_commits :
      (c : Capability) (q : PutRequest) (event_id : Uuid) (now : Time) (s : Store) {t : Table Lease}
      → 0 < c.lease_epoch
      → take_lease c s.leases ≡ ok t
      → find_replay c.run_id q.idempotency_key s.idempotency ≡ none
      → lookup q.checkpoint_id s.checkpoints ≡ none
      → max_version c.thread_id s.checkpoints ≡ q.expected_version
      → length q.payload ≤ max_octets
      → Returns (put_checkpoint cause c q event_id now s) λ (r, s').
        (r.version ≡ q.expected_version + 1)
        × (r.payload ≡ q.payload)
        × (get_checkpoint c.thread_id q.checkpoint_id s' ≡ ok r)
        × (length s'.outbox ≡ length s.outbox + 1)
  unfolding put_checkpoint commit insert_checkpoint get_checkpoint record_of new_row
  put_checkpoint_commits c q event_id now s positive lease unused fresh current small =
      let epoch : (c.lease_epoch == 0) ≡ false = ground arith in
      let next : (q.expected_version + 1 == 0) ≡ false = ground arith in
      let fits : ltb max_octets (length q.payload) ≡ false = ground arith in
      rw
        (
          lease,
          unused,
          current,
          ==_refl q.expected_version,
          epoch,
          next,
          fits,
          fresh,
          version_taken-above c.thread_id (q.expected_version + 1) s.checkpoints (omega arith),
        )
        (refl, refl, grind (arith, lookup-put), omega (arith, length-append {0}))

  -- Whoever repeats a successful put, under the same capability, key and content, gets the same
  -- record, and the store does not change, whatever the time and the event id are then.
  pub put_checkpoint_repeats :
      (c : Capability) (q : PutRequest) (event_id event_id' : Uuid) (now now' : Time) (s s' : Store)
      {r : CheckpointRecord}
      → put_checkpoint cause c q event_id now s ≡ ok (r, s')
      → put_checkpoint cause c q event_id' now' s' ≡ ok (r, s')
  unfolding put_checkpoint commit replayed insert_checkpoint find_replay same_hash hash_of
  put_checkpoint_repeats c q event_id event_id' now now' s s' e =
      let again =
        take_lease_again c s.leases s'.leases
          (put_checkpoint-take_lease cause c q event_id now s s' e) in
      elim (Option-cases (find_replay c.run_id q.idempotency_key s.idempotency)) [
        | inl n ↦ grind (arith, again, lookup-put)
        | inr (r, h) ↦ ground (arith, again)
      ]
