-- ===== src/Identity/Retry.antt =====
-- A repeated `grant_create` (services/identity-delegation/identity_delegation/main.py).
use porfirium.Prelude.{
  ◌≡◌, ◌≢◌, ◌∙◌, ◌+◌, ap, refl, inl, inr, false, some, Uuid, Digest, Key, Time, ◌==◌, length, ok,
  err, Option-cases, Bool-cases, arith, distinct, sort_texts, lookup,
}
use porfirium.Identity.Claims.{idempotency_conflict}
use porfirium.Identity.Grants.{
  GrantRecord, NewGrant, Request, Db, get_grant, find_request, digest_of, create_grant,
  revoke_grant,
}
use porfirium.Identity.Service.{CreateGrant, eight_hours, grant_create, grant_revoke}
use porfirium.Identity.Revoked.{Later, here, creates, revokes}

-- What `grant_create` asks the store for.
abbrev asked : CreateGrant → Uuid → Time → NewGrant
asked body user now = record {
  user_id = user;
  conversation_id = body.conversation_id;
  release_id = body.release_id;
  maximum_scopes = body.maximum_scopes;
  expires_at = now + eight_hours;
}

-- The request that a key of a user is taken by.
abbrev IsTaken : Uuid → Key → Digest → Db → Type 0
IsTaken user key sha d =
    (q : Request) × (find_request user key d.requests ≡ some q) × (q.request_sha256 ≡ sha)

grant_create-IsTaken :
    (sha256 : NewGrant → Digest) (body : CreateGrant) (user : Uuid) (key : Key) (id : Uuid)
    (now : Time) (d d' : Db) (r : Uuid × GrantRecord)
    → grant_create sha256 body user key id now d ≡ ok (r, d')
    → IsTaken user key (digest_of sha256 (asked body user now)) d'
unfolding grant_create create_grant find_request get_grant
grant_create-IsTaken sha256 body user key id now d d' r e =
    elim (Option-cases (find_request user key d.requests)) [
      | inl fresh ↦ (
        record {
          actor_id = user;
          idempotency_key = key;
          request_sha256 = digest_of sha256 (asked body user now);
          grant_id = id;
        },
        ground arith,
        refl,
      )
      | inr (q, found) ↦ elim (Option-cases (lookup q.grant_id d.grants)) [
        | inl absent ↦ ground arith
        | inr (g, there) ↦ (q, ground arith, ground arith)
      ]
    ]

grant_create-keeps :
    (sha256 : NewGrant → Digest) (body : CreateGrant) (user : Uuid) (key : Key) (id : Uuid)
    (now : Time) (d d' : Db) (r : Uuid × GrantRecord) (owner : Uuid) (k : Key) (q : Request)
    → grant_create sha256 body user key id now d ≡ ok (r, d')
    → find_request owner k d.requests ≡ some q
    → find_request owner k d'.requests ≡ some q
unfolding grant_create create_grant find_request get_grant
grant_create-keeps sha256 body user key id now d d' r owner k q e found =
    elim (Option-cases (find_request user key d.requests)) [
      | inl fresh ↦ ground arith
      | inr (p, old) ↦ elim (Option-cases (lookup p.grant_id d.grants)) [
        | inl absent ↦ ground arith
        | inr (g, there) ↦ ground arith
      ]
    ]

grant_revoke-keeps :
    (id user : Uuid) (now : Time) (d d' : Db)
    → grant_revoke id user now d ≡ ok d'
    → d'.requests ≡ d.requests
unfolding grant_revoke revoke_grant get_grant
grant_revoke-keeps id user now d d' e = elim (Option-cases (lookup id d.grants)) [
  | inl absent ↦ ground arith
  | inr (g, found) ↦ ground arith
]

Later-keeps :
    {sha256 : NewGrant → Digest} {d d' : Db} (owner : Uuid) (k : Key) (q : Request)
    → Later sha256 d d'
    → find_request owner k d.requests ≡ some q
    → find_request owner k d'.requests ≡ some q
Later-keeps owner k q here h = h
Later-keeps {sha256} {d} {d'} owner k q (creates {m = m} body user key id now r earlier e) h =
    grant_create-keeps sha256 body user key id now m d' r owner k q e
      (Later-keeps owner k q earlier h)
Later-keeps {sha256} {d} {d'} owner k q (revokes {m = m} id user now earlier e) h =
    ap (find_request owner k) (grant_revoke-keeps id user now m d' e)
    ∙ Later-keeps owner k q earlier h

-- SHA-256 tells requests with different expiries apart.
abbrev pub Distinguishes : (NewGrant → Digest) → Type 0
Distinguishes sha256 =
    (p : NewGrant) (a b : Time)
    → sha256 (record p { expires_at = a }) ≡ sha256 (record p { expires_at = b })
    → a ≡ b

digest_of-differs :
    (sha256 : NewGrant → Digest)
    → Distinguishes sha256
    → (body : CreateGrant) (user : Uuid) (now now' : Time) → now ≢ now'
    → (digest_of sha256 (asked body user now) == digest_of sha256 (asked body user now')) ≡ false
unfolding digest_of
digest_of-differs sha256 distinguishes body user now now' differ =
    elim (Bool-cases
      (digest_of sha256 (asked body user now) == digest_of sha256 (asked body user now'))) [
        | inr apart ↦ apart
        | inl same ↦
            let eq : digest_of sha256 (asked body user now)
                ≡ digest_of sha256 (asked body user now') =
              ground arith in
            let times =
              distinguishes
                (record (asked body user now) { maximum_scopes = sort_texts body.maximum_scopes })
                (now + eight_hours) (now' + eight_hours) eq in
            absurd (differ (omega arith))
      ]

create_grant-conflict :
    (sha256 : NewGrant → Digest) (key : Key) (p : NewGrant) (id : Uuid) (now : Time) (d : Db)
    (q : Request)
    → find_request p.user_id key d.requests ≡ some q
    → (q.request_sha256 == digest_of sha256 p) ≡ false
    → create_grant sha256 key p id now d ≡ err idempotency_conflict
unfolding create_grant
create_grant-conflict sha256 key p id now d q found apart = ground arith

-- A grant that is asked for again with the same key and body at another time, after any number of
-- other calls, is refused as a conflict, where SHA-256 tells requests with different expiries
-- apart.
pub grant_create_retry :
    (sha256 : NewGrant → Digest) (distinguishes : Distinguishes sha256) (body : CreateGrant)
    (user : Uuid) (key : Key) (id id' : Uuid) (now now' : Time) (d m d' : Db)
    (r : Uuid × GrantRecord)
    → grant_create sha256 body user key id now d ≡ ok (r, m)
    → Later sha256 m d'
    → now ≢ now'
    → grant_create sha256 body user key id' now' d' ≡ err idempotency_conflict
unfolding grant_create
grant_create_retry sha256 distinguishes body user key id id' now now' d m d' r e later differ =
    let (q, taken, sha) = grant_create-IsTaken sha256 body user key id now d m r e in
    let found = Later-keeps user key q later taken in
    let apart =
      ap (λ x. x == digest_of sha256 (asked body user now')) sha
      ∙ digest_of-differs sha256 distinguishes body user now now' differ in
    let refused =
      create_grant-conflict sha256 key (asked body user now') id' now' d' q found apart in
    elim (Bool-cases (length (distinct body.maximum_scopes) == length body.maximum_scopes)) [
      | inl unique ↦ ground arith
      | inr twice ↦ ground arith
    ]
