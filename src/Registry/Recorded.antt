-- ===== src/Registry/Recorded.antt =====
-- What `resolve_run_specification` of services/agent-registry/agent_registry/resolution.py records of an answer.
use mathlib.Core.Path.{subst}
use porfirium.Prelude.{
  ℕ, ◌≡◌, ◌∙◌, ap, sym, refl, ◌⊎◌, inl, inr, Bool, true, false, ◌&&◌, none, some, is_none, List, [],
  ◌∷◌, Uuid, Digest, Time, ◌==◌, list_eq, list_eq→eq, list_eq_refl, both_true, holds, Table, lookup,
  put, lookup-put, ok, Result-cases, Option-cases, Bool-cases, arith,
}
use porfirium.Registry.State.{Release}
use porfirium.Registry.Access.{
  ServiceIdentity, AccessRecord, resolving, Tables, find_access_record, same_kind,
}
use porfirium.Registry.Resolution.{
  ResolutionRequest, Specification, Signer, find_run, authorized_release, issue,
  valid_resolution_key, resolve_run_specification,
}

-- The primary key of a table.
abbrev pub distinct_keys : Table Specification → Bool
distinct_keys [] = true
distinct_keys ((k, s) ∷ t) = is_none (lookup k t) && distinct_keys t

find_run-lookup :
    (run : Uuid) (t : Table Specification) (k : Uuid) (s : Specification)
    → distinct_keys t ≡ true
    → find_run run t ≡ some (k, s)
    → lookup k t ≡ some s
unfolding find_run lookup
find_run-lookup run [] k s h e = cc
find_run-lookup run ((j, x) ∷ t) k s h e = ground (arith, find_run-lookup run t k s)

-- What a key of an actor was answered with.
abbrev pub Recorded : Uuid → List ℕ → Digest → Uuid → Specification → Tables Specification → Type 0
Recorded actor key sha k s d =
    (r : AccessRecord) × (find_access_record actor resolving key d.records ≡ some r)
    × (r.request_sha256 ≡ sha)
    × (r.result_id ≡ k)
    × (lookup k d.specifications ≡ some s)

-- A record of another key, actor or operation in front.
pub record_behind :
    (actor : Uuid) (key : List ℕ) (r old : AccessRecord) (rs : List AccessRecord)
    → find_access_record actor resolving key rs ≡ some old
    → (r.actor_id == actor && same_kind r.operation resolving && list_eq r.idempotency_key key)
      ≡ false
    → find_access_record actor resolving key (r ∷ rs) ≡ some old
unfolding find_access_record
record_behind actor key r old rs h miss = ground arith

record_front :
    (actor : Uuid) (key : List ℕ) (r : AccessRecord) (rs : List AccessRecord)
    → (r.actor_id == actor && same_kind r.operation resolving && list_eq r.idempotency_key key)
      ≡ true
    → find_access_record actor resolving key (r ∷ rs) ≡ some r
unfolding find_access_record
record_front actor key r rs hit = ground arith

clash :
    (actor a : Uuid) (key k : List ℕ) (rs : List AccessRecord) (old : AccessRecord)
    → find_access_record actor resolving key rs ≡ some old
    → find_access_record a resolving k rs ≡ none
    → (a == actor && list_eq k key) ≡ false
clash actor a key k rs old h fresh = elim (Bool-cases (a == actor && list_eq k key)) [
  | inr miss ↦ miss
  | inl hit ↦
      let (x, y) = both_true (a == actor) (list_eq k key) hit in
      let same : a ≡ actor = ground arith in let keys = list_eq→eq k key y in absurd (cc)
]

abbrev record_of : Signer → ResolutionRequest → Uuid → List ℕ → Uuid → AccessRecord
record_of g q actor key k = record {
  actor_id = actor;
  operation = resolving;
  idempotency_key = key;
  request_sha256 = g.request_sha256 q;
  result_id = k;
}

-- A resolution repeats an answer, or records one: a stored specification of the run, or a new one.
abbrev pub Resolved :
    Signer
    → ResolutionRequest
    → Uuid
    → List ℕ
    → Tables Specification
    → Tables Specification
    → Uuid
    → Specification
    → Type 0
Resolved g q actor key d d' k s =
    ((d' ≡ d) × Recorded actor key (g.request_sha256 q) k s d)
    ⊎ ((find_access_record actor resolving key d.records ≡ none)
        × (d'.records ≡ record_of g q actor key k ∷ d.records)
        × (((d'.specifications ≡ d.specifications)
              × (find_run q.run_id d.specifications ≡ some (k, s)))
            ⊎ ((d'.specifications ≡ put k s d.specifications)
                × (lookup k d.specifications ≡ none))))

module _ (g : Signer) where
  issue-stores :
      (identity : ServiceIdentity) (q : ResolutionRequest) (actor : Uuid) (key : List ℕ) (id : Uuid)
      (now : Time) (releases : Table Release) (d d' : Tables Specification) (k : Uuid)
      (s : Specification)
      → issue g identity q actor key id now releases d ≡ ok ((k, s), d')
      → (d'.records ≡ record_of g q actor key k ∷ d.records)
        × (d'.specifications ≡ put k s d.specifications)
        × (lookup k d.specifications ≡ none)
  unfolding issue
  issue-stores identity q actor key id now releases d d' k s e =
      elim (Result-cases (authorized_release g.show_uuid identity q releases d.grants)) [
        | inr (p, refused) ↦ ground arith
        | inl (r, found) ↦ elim (Option-cases (g.read_spec r.manifest)) [
          | inl unread ↦ ground arith
          | inr (spec, read) ↦ (ground arith, ground arith, ground arith)
        ]
      ]

  pub resolve-Resolved :
      (identity : ServiceIdentity) (q : ResolutionRequest) (actor : Uuid) (key : List ℕ) (id : Uuid)
      (now : Time) (releases : Table Release) (d d' : Tables Specification) (k : Uuid)
      (s : Specification)
      → resolve_run_specification g identity q actor key id now releases d ≡ ok ((k, s), d')
      → Resolved g q actor key d d' k s
  unfolding resolve_run_specification
  resolve-Resolved identity q actor key id now releases d d' k s e =
      elim (Option-cases (find_access_record actor resolving key d.records)) [
        | inr (old, again) ↦ elim (Option-cases (lookup old.result_id d.specifications)) [
          | inl absent ↦ ground arith
          | inr (x, there) ↦
              inl (ground arith, (old, again, ground arith, ground arith, ground arith))
        ]
        | inl fresh ↦ elim (Option-cases (find_run q.run_id d.specifications)) [
          | inr ((i, x), there) ↦ inr (fresh, ground arith, inl (ground arith, ground arith))
          | inl unused ↦
              let (records, specifications, absent) =
                issue-stores identity q actor key id now releases d d' k s (ground arith) in
              inr (fresh, records, inr (specifications, absent))
        ]
      ]

  pub Resolved-Recorded :
      (q : ResolutionRequest) (actor : Uuid) (key : List ℕ) (d d' : Tables Specification) (k : Uuid)
      (s : Specification)
      → distinct_keys d.specifications ≡ true
      → Resolved g q actor key d d' k s
      → Recorded actor key (g.request_sha256 q) k s d'
  Resolved-Recorded q actor key d d' k s keyed (inl (same, recorded)) =
      subst (Recorded actor key (g.request_sha256 q) k s) (sym same) recorded
  Resolved-Recorded q actor key d d' k s keyed (inr (fresh, records, stored)) = (
    record_of g q actor key k,
    ap (find_access_record actor resolving key) records
        ∙ record_front actor key (record_of g q actor key k) d.records
            (ground (arith, list_eq_refl key)),
    refl,
    refl,
    elim stored [
      | inl (specifications, there) ↦
          ap (lookup k) specifications ∙ find_run-lookup q.run_id d.specifications k s keyed there
      | inr (specifications, absent) ↦
          ap (lookup k) specifications ∙ ground (arith, lookup-put k k s d.specifications)
    ],
  )

  pub Resolved-keeps :
      (q : ResolutionRequest) (a : Uuid) (c : List ℕ) (d d' : Tables Specification) (i : Uuid)
      (x : Specification) (actor : Uuid) (key : List ℕ) (sha : Digest) (k : Uuid)
      (s : Specification)
      → Resolved g q a c d d' i x
      → Recorded actor key sha k s d
      → Recorded actor key sha k s d'
  Resolved-keeps q a c d d' i x actor key sha k s (inl (same, recorded)) h =
      subst (Recorded actor key sha k s) (sym same) h
  Resolved-keeps q a c d d' i x actor key sha k s (inr (fresh, records, stored))
        (r, found, digest, names, there) =
      let miss = clash actor a key c d.records r found fresh in
      (
        r,
        ap (find_access_record actor resolving key) records
            ∙ record_behind actor key (record_of g q a c i) r d.records found (ground arith),
        digest,
        names,
        elim stored [
          | inl (specifications, run) ↦ ap (lookup k) specifications ∙ there
          | inr (specifications, absent) ↦
              ap (lookup k) specifications ∙ ground (arith, lookup-put i k x d.specifications)
        ],
      )

  pub Recorded-answer :
      (identity : ServiceIdentity) (q : ResolutionRequest) (actor : Uuid) (key : List ℕ) (id : Uuid)
      (now : Time) (releases : Table Release) (d : Tables Specification) (k : Uuid)
      (s : Specification)
      → holds identity.delegated_user_id (g.show_uuid q.user_id) ≡ true
      → valid_resolution_key key ≡ true
      → Recorded actor key (g.request_sha256 q) k s d
      → resolve_run_specification g identity q actor key id now releases d ≡ ok ((k, s), d)
  unfolding resolve_run_specification
  Recorded-answer identity q actor key id now releases d k s user valid
        (r, found, digest, names, there) =
      ground arith
