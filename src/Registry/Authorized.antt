-- ===== src/Registry/Authorized.antt =====
-- What `resolve_run_specification` of services/agent-registry/agent_registry/resolution.py resolves.
use porfirium.Prelude.{
  ℕ, ◌+◌, ◌≡◌, ◌⊎◌, inl, inr, true, none, some, List, Uuid, Time, holds, Table, lookup, ok,
  Option-cases, arith,
}
use porfirium.Registry.State.{Release, is_published}
use porfirium.Registry.Access.{
  ServiceIdentity, resolving, Tables, find_access_record, may_run, is_granted,
}
use porfirium.Registry.Resolution.{
  ResolutionRequest, Specification, Signer, find_run, authorized_release, specification_of, issue,
  resolve_run_specification,
}

-- A specification that was stored before.
abbrev pub WasStored : ResolutionRequest → Uuid → Specification → Tables Specification → Type 0
WasStored q k s d =
    (lookup k d.specifications ≡ some s) ⊎ (find_run q.run_id d.specifications ≡ some (k, s))

-- A new specification, behind its id, of a release that is published and that the user may run.
abbrev pub IsIssued :
    Signer
    → ServiceIdentity
    → ResolutionRequest
    → Time
    → Uuid
    → Specification
    → Table Release
    → Tables Specification
    → Type 0
IsIssued g identity q now k s releases d =
    (r : Release) × (lookup q.release_id releases ≡ some r)
    × (is_published r.status ≡ true)
    × (is_granted may_run r.agent_id (g.show_uuid q.user_id) identity.groups identity.roles d.grants
        ≡ true)
    × (find_run q.run_id d.specifications ≡ none)
    × (s.run_id ≡ q.run_id)
    × (s.payload.request ≡ q)
    × (s.release_id ≡ q.release_id)
    × (s.user_id ≡ q.user_id)
    × (s.request_sha256 ≡ g.request_sha256 q)
    × (s.key_id ≡ g.key_id)
    × (s.payload.specification_id ≡ k)
    × (s.payload.agent_id ≡ r.agent_id)
    × (s.payload.version ≡ r.version)
    × (s.payload.image ≡ r.image)
    × (s.payload.manifest_sha256 ≡ r.manifest_sha256)
    × (g.read_spec r.manifest ≡ some s.payload.spec)
    × (s.payload.issued_at ≡ now)
    × (s.payload.expires_at ≡ now + g.ttl)
    × ((s.payload_sha256, s.signature) ≡ g.sign s.payload)

module _ (g : Signer) where
  issue-IsIssued :
      (identity : ServiceIdentity) (q : ResolutionRequest) (actor : Uuid) (key : List ℕ) (id : Uuid)
      (now : Time) (releases : Table Release) (d d' : Tables Specification) (k : Uuid)
      (s : Specification)
      → issue g identity q actor key id now releases d ≡ ok ((k, s), d')
      → find_run q.run_id d.specifications ≡ none
      → IsIssued g identity q now k s releases d
  unfolding issue authorized_release specification_of
  issue-IsIssued identity q actor key id now releases d d' k s e unused =
      elim (Option-cases (lookup q.release_id releases)) [
        | inl absent ↦ ground arith
        | inr (r, found) ↦ elim (Option-cases (g.read_spec r.manifest)) [
          | inl unread ↦ ground arith
          | inr (spec, read) ↦ (
            r,
            found,
            ground arith,
            ground arith,
            unused,
            ground arith,
            ground arith,
            ground arith,
            ground arith,
            ground arith,
            ground arith,
            ground arith,
            ground arith,
            ground arith,
            ground arith,
            ground arith,
            ground arith,
            ground arith,
            ground arith,
            ground arith,
          )
        ]
      ]

  -- A run gets a specification that was stored before, or a new one: then it had none, its release is
  -- published and a live grant lets the user or one of the groups or roles run the agent. The payload is
  -- then signed, and it has the new id, the request, the agent, version, image, digest and parsed manifest of the
  -- release, and a validity of the signer's time to live from now on; the row has the run, the release, the user and
  -- the digest of the request, and the id of the key.
  pub resolve_authorized :
      (identity : ServiceIdentity) (q : ResolutionRequest) (actor : Uuid) (key : List ℕ) (id : Uuid)
      (now : Time) (releases : Table Release) (d d' : Tables Specification) (k : Uuid)
      (s : Specification)
      → resolve_run_specification g identity q actor key id now releases d ≡ ok ((k, s), d')
      → (holds identity.delegated_user_id (g.show_uuid q.user_id) ≡ true)
        × (WasStored q k s d ⊎ IsIssued g identity q now k s releases d)
  unfolding resolve_run_specification
  resolve_authorized identity q actor key id now releases d d' k s e = (
    ground arith,
    elim (Option-cases (find_access_record actor resolving key d.records)) [
      | inr (old, again) ↦ elim (Option-cases (lookup old.result_id d.specifications)) [
        | inl absent ↦ ground arith
        | inr (x, there) ↦ inl (inl (ground arith))
      ]
      | inl fresh ↦ elim (Option-cases (find_run q.run_id d.specifications)) [
        | inr ((i, x), there) ↦ inl (inr (ground arith))
        | inl unused ↦
            inr (issue-IsIssued identity q actor key id now releases d d' k s (ground arith) unused)
      ]
    ],
  )
