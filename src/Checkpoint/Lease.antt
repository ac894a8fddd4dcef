-- ===== src/Checkpoint/Lease.antt =====
-- The lease of a run fences off older attempts (services/checkpoint-api/checkpoint_api/store.py).
use porfirium.Prelude.{
  ℕ, ◌≤◌, ◌<◌, ◌≡◌, inl, inr, Option, none, some, Uuid, Key, Time, Table, lookup, lookup-put,
  Option-cases, ok, err, arith,
}
use porfirium.Checkpoint.Store.{
  lease_stale, Capability, Lease, CheckpointRecord, Store, PutRequest, take_lease, replayed, commit,
  put_checkpoint,
}

-- The epoch that holds a run's lease; 0 where no attempt has taken it yet.
abbrev pub epoch_of : Option Lease → ℕ
epoch_of none = 0
epoch_of (some l) = l.lease_epoch

abbrev pub lease_epoch : Uuid → Store → ℕ
lease_epoch run s = epoch_of (lookup run s.leases)

take_lease-epoch :
    (c : Capability) (t t' : Table Lease) (run : Uuid)
    → take_lease c t ≡ ok t'
    → epoch_of (lookup run t) ≤ epoch_of (lookup run t')
unfolding take_lease
take_lease-epoch c t t' run e = elim (Option-cases (lookup c.run_id t)) [
  | inl n ↦ grind (arith, lookup-put)
  | inr (l, h) ↦ grind (arith, lookup-put)
]

take_lease_holds :
    (c : Capability) (t t' : Table Lease)
    → take_lease c t ≡ ok t'
    → lookup c.run_id t' ≡ some (record { attempt_id = c.attempt_id; lease_epoch = c.lease_epoch })
unfolding take_lease
take_lease_holds c t t' e = elim (Option-cases (lookup c.run_id t)) [
  | inl n ↦ grind (arith, lookup-put)
  | inr (l, h) ↦ grind (arith, lookup-put)
]

-- The holder of the lease takes it again without effect.
pub take_lease_again :
    (c : Capability) (t t' : Table Lease) → take_lease c t ≡ ok t' → take_lease c t' ≡ ok t'
unfolding take_lease
take_lease_again c t t' e = ground (arith, take_lease_holds c t t' e)

take_lease_stale :
    (c : Capability) (t : Table Lease)
    → c.lease_epoch < epoch_of (lookup c.run_id t)
    → take_lease c t ≡ err lease_stale
unfolding take_lease
take_lease_stale c t h = elim (Option-cases (lookup c.run_id t)) [
  | inl n ↦ ground arith
  | inr (l, e) ↦ ground arith
]

module _ (cause : Key → Uuid) where
  -- A successful put leaves the lease table as `take_lease` made it.
  pub put_checkpoint-take_lease :
      (c : Capability) (q : PutRequest) (event_id : Uuid) (now : Time) (s s' : Store)
      {r : CheckpointRecord}
      → put_checkpoint cause c q event_id now s ≡ ok (r, s')
      → take_lease c s.leases ≡ ok s'.leases
  unfolding put_checkpoint commit replayed
  put_checkpoint-take_lease c q event_id now s s' e = ground arith

  -- Any number of successful puts, by any attempts of any runs.
  pub data Later (s : Store) : Store → Type 0 where
    here : Later s s
    next :
        {t u : Store} (c : Capability) (q : PutRequest) (event_id : Uuid) (now : Time)
        (r : CheckpointRecord)
        → Later s t
        → put_checkpoint cause c q event_id now t ≡ ok (r, u)
        → Later s u

  Later-epoch : {s t : Store} (run : Uuid) → Later s t → lease_epoch run s ≤ lease_epoch run t
  Later-epoch run here = omega arith
  Later-epoch run (next {t = t} {u = u} c q event_id now r l e) = omega (
    arith,
    Later-epoch run l,
    take_lease-epoch c t.leases u.leases run (put_checkpoint-take_lease c q event_id now t u e),
  )

  -- Once an attempt has written with some epoch, then whatever is written afterwards, a put of the
  -- same run with a lower epoch is refused as stale.
  pub put_checkpoint_fences :
      (c old : Capability) (q q' : PutRequest) (event_id event_id' : Uuid) (now now' : Time)
      (s t u : Store) {r : CheckpointRecord}
      → put_checkpoint cause c q event_id now s ≡ ok (r, t)
      → Later t u
      → old.run_id ≡ c.run_id
      → old.lease_epoch < c.lease_epoch
      → put_checkpoint cause old q' event_id' now' u ≡ err lease_stale
  unfolding put_checkpoint
  put_checkpoint_fences c old q q' event_id event_id' now now' s t u e l same below =
      let held =
        take_lease_holds c s.leases t.leases (put_checkpoint-take_lease c q event_id now s t e) in
      let stale : take_lease old u.leases ≡ err lease_stale =
        take_lease_stale old u.leases (rw same (ground (arith, held, Later-epoch c.run_id l))) in
      rw stale
