-- ===== src/Registry/Replays.antt =====
-- A run specification that is asked for again
-- (services/agent-registry/agent_registry/resolution.py).
use porfirium.Prelude.{
  ℕ, ◌≡◌, ◌∙◌, ap, refl, ◌⊎◌, inl, inr, Bool, true, false, List, ◌∷◌, Uuid, Digest, Time, holds,
  Table, lookup, ok, Result-cases, Option-cases, arith,
}
use porfirium.Registry.State.{Release, Agent}
use porfirium.Registry.Access.{
  ServiceIdentity, Grant, GrantRequest, AccessRecord, granting, revoking, resolving, Tables,
  find_live, find_access_record, same_kind, granted, revoked, grant_access, revoke_access,
}
use porfirium.Registry.Resolution.{
  ResolutionRequest, Specification, Signer, valid_resolution_key, resolve_run_specification,
}
use porfirium.Registry.Recorded.{
  Recorded, distinct_keys, record_behind, Resolved-Recorded, Resolved-keeps, resolve-Resolved,
  Recorded-answer,
}

-- What the calls of access.py leave of the records and the specifications.
abbrev LeavesResolutions : Tables Specification → Tables Specification → Type 0
LeavesResolutions d d' =
    (d'.specifications ≡ d.specifications)
    × ((d'.records ≡ d.records)
        ⊎ ((r : AccessRecord) × (same_kind r.operation resolving ≡ false)
            × (d'.records ≡ r ∷ d.records)))

LeavesResolutions-keeps :
    (d d' : Tables Specification) (actor : Uuid) (key : List ℕ) (sha : Digest) (k : Uuid)
    (s : Specification)
    → LeavesResolutions d d'
    → Recorded actor key sha k s d
    → Recorded actor key sha k s d'
LeavesResolutions-keeps d d' actor key sha k s (specifications, inl records)
      (r, found, digest, names, there) =
    (
      r,
      ap (find_access_record actor resolving key) records ∙ found,
      digest,
      names,
      ap (lookup k) specifications ∙ there,
    )
LeavesResolutions-keeps d d' actor key sha k s (specifications, inr (new, other, records))
      (r, found, digest, names, there) =
    (
      r,
      ap (find_access_record actor resolving key) records
          ∙ record_behind actor key new r d.records found (ground arith),
      digest,
      names,
      ap (lookup k) specifications ∙ there,
    )

granted-leaves :
    (actor : Uuid) (q : GrantRequest) (id audit_id : Uuid) (d m : Tables Specification)
    (r : Uuid × Grant)
    → granted actor q id audit_id d ≡ ok (r, m)
    → (m.specifications ≡ d.specifications) × (m.records ≡ d.records)
granted-leaves actor q id audit_id d m r e = elim (Option-cases (find_live q d.grants)) [
  | inl absent ↦ (ground arith, ground arith)
  | inr (live, found) ↦ (ground arith, ground arith)
]

grant_access-leaves :
    (valid_request : GrantRequest → Bool) (agents : Table Agent) (sha256 : GrantRequest → Digest)
    (actor : Uuid) (key : List ℕ) (q : GrantRequest) (id audit_id : Uuid)
    (d d' : Tables Specification) (r : Uuid × Grant)
    → grant_access valid_request agents sha256 actor key q id audit_id d ≡ ok (r, d')
    → LeavesResolutions d d'
unfolding grant_access
grant_access-leaves valid_request agents sha256 actor key q id audit_id d d' r e =
    elim (Option-cases (find_access_record actor granting key d.records)) [
      | inr (old, again) ↦ elim (Option-cases (lookup old.result_id d.grants)) [
        | inl absent ↦ ground arith
        | inr (x, there) ↦ (ground arith, inl (ground arith))
      ]
      | inl fresh ↦ elim (Result-cases (granted actor q id audit_id d)) [
        | inr (p, refused) ↦ ground arith
        | inl (((k, x), m), made) ↦
            let (specifications, records) = granted-leaves actor q id audit_id d m (k, x) made in
            (
              ground arith,
              inr (
                record {
                  actor_id = actor;
                  operation = granting;
                  idempotency_key = key;
                  request_sha256 = sha256 q;
                  result_id = k;
                },
                refl,
                ground arith,
              ),
            )
      ]
    ]

revoked-leaves :
    (actor id audit_id : Uuid) (now : Time) (x : Grant) (d : Tables Specification)
    → ((revoked actor id audit_id now x d).1.specifications ≡ d.specifications)
      × ((revoked actor id audit_id now x d).1.records ≡ d.records)
revoked-leaves actor id audit_id now x d = elim (Option-cases x.revoked_at) [
  | inl live ↦ (ground arith, ground arith)
  | inr (t, gone) ↦ (ground arith, ground arith)
]

revoke_access-leaves :
    (sha256 : Uuid → Digest) (actor : Uuid) (key : List ℕ) (id audit_id : Uuid) (now : Time)
    (d d' : Tables Specification) (r : Uuid × Grant)
    → revoke_access sha256 actor key id audit_id now d ≡ ok (r, d')
    → LeavesResolutions d d'
unfolding revoke_access
revoke_access-leaves sha256 actor key id audit_id now d d' r e =
    elim (Option-cases (find_access_record actor revoking key d.records)) [
      | inr (old, again) ↦ elim (Option-cases (lookup old.result_id d.grants)) [
        | inl absent ↦ ground arith
        | inr (x, there) ↦ (ground arith, inl (ground arith))
      ]
      | inl fresh ↦ elim (Option-cases (lookup id d.grants)) [
        | inl absent ↦ ground arith
        | inr (x, there) ↦
            let (specifications, records) = revoked-leaves actor id audit_id now x d in
            (
              ground arith,
              inr (
                record {
                  actor_id = actor;
                  operation = revoking;
                  idempotency_key = key;
                  request_sha256 = sha256 id;
                  result_id = id;
                },
                refl,
                ground arith,
              ),
            )
      ]
    ]

-- Any number of calls of access.py and resolution.py, over whatever releases and agents are there then.
pub data Later (g : Signer) (d : Tables Specification) : Tables Specification → Type 0 where
  here : Later g d d
  grants :
      {m d' : Tables Specification} (valid_request : GrantRequest → Bool) (agents : Table Agent)
      (sha256 : GrantRequest → Digest) (actor : Uuid) (key : List ℕ) (q : GrantRequest)
      (id audit_id : Uuid) (r : Uuid × Grant)
      → Later g d m
      → grant_access valid_request agents sha256 actor key q id audit_id m ≡ ok (r, d')
      → Later g d d'
  revokes :
      {m d' : Tables Specification} (sha256 : Uuid → Digest) (actor : Uuid) (key : List ℕ)
      (id audit_id : Uuid) (now : Time) (r : Uuid × Grant)
      → Later g d m
      → revoke_access sha256 actor key id audit_id now m ≡ ok (r, d')
      → Later g d d'
  resolves :
      {m d' : Tables Specification} (identity : ServiceIdentity) (q : ResolutionRequest)
      (actor : Uuid) (key : List ℕ) (id : Uuid) (now : Time) (releases : Table Release) (k : Uuid)
      (s : Specification)
      → Later g d m
      → resolve_run_specification g identity q actor key id now releases m ≡ ok ((k, s), d')
      → Later g d d'

Later-keeps :
    {g : Signer} {d d' : Tables Specification} (actor : Uuid) (key : List ℕ) (sha : Digest)
    (k : Uuid) (s : Specification)
    → Later g d d'
    → Recorded actor key sha k s d
    → Recorded actor key sha k s d'
Later-keeps actor key sha k s here h = h
Later-keeps {g} {d} {d'} actor key sha k s
      (grants {m = m} valid_request agents sha256 a c q id audit_id r earlier e) h =
    LeavesResolutions-keeps m d' actor key sha k s
      (grant_access-leaves valid_request agents sha256 a c q id audit_id m d' r e)
      (Later-keeps actor key sha k s earlier h)
Later-keeps {g} {d} {d'} actor key sha k s (revokes {m = m} sha256 a c id audit_id now r earlier e)
      h =
    LeavesResolutions-keeps m d' actor key sha k s
      (revoke_access-leaves sha256 a c id audit_id now m d' r e)
      (Later-keeps actor key sha k s earlier h)
Later-keeps {g} {d} {d'} actor key sha k s
      (resolves {m = m} identity q a c id now releases i x earlier e) h =
    Resolved-keeps g q a c m d' i x actor key sha k s
      (resolve-Resolved g identity q a c id now releases m d' i x e)
      (Later-keeps actor key sha k s earlier h)

guards :
    (g : Signer) (identity : ServiceIdentity) (q : ResolutionRequest) (actor : Uuid) (key : List ℕ)
    (id : Uuid) (now : Time) (releases : Table Release) (d d' : Tables Specification) (k : Uuid)
    (s : Specification)
    → resolve_run_specification g identity q actor key id now releases d ≡ ok ((k, s), d')
    → (holds identity.delegated_user_id (g.show_uuid q.user_id) ≡ true)
      × (valid_resolution_key key ≡ true)
unfolding resolve_run_specification
guards g identity q actor key id now releases d d' k s e = (ground arith, ground arith)

-- A request that was resolved, sent again with its key, gets the same specification and changes nothing, whatever
-- grants are given or revoked, other runs resolved and releases published or deprecated in between. The
-- specifications have a primary key.
pub resolve_repeats :
    (g : Signer) (identity : ServiceIdentity) (q : ResolutionRequest) (actor : Uuid) (key : List ℕ)
    (id id' : Uuid) (now now' : Time) (releases releases' : Table Release)
    (d m d' : Tables Specification) (k : Uuid) (s : Specification)
    → distinct_keys d.specifications ≡ true
    → resolve_run_specification g identity q actor key id now releases d ≡ ok ((k, s), m)
    → Later g m d'
    → resolve_run_specification g identity q actor key id' now' releases' d' ≡ ok ((k, s), d')
resolve_repeats g identity q actor key id id' now now' releases releases' d m d' k s keyed e later =
    let (user, valid) = guards g identity q actor key id now releases d m k s e in
    Recorded-answer g identity q actor key id' now' releases' d' k s user valid (
      Later-keeps actor key (g.request_sha256 q) k s later (
        Resolved-Recorded g q actor key d m k s keyed
          (resolve-Resolved g identity q actor key id now releases d m k s e)))
