-- ===== src/Configuration/Repeats.antt =====
-- What `revision_create` (services/configuration-service/configuration_service/main.py) leaves behind, and
-- a repeated `create_revision` (store.py).
use porfirium.Prelude.{
  ◌≡◌, refl, ◌∙◌, sym, ap, inl, inr, some, Uuid, Digest, Key, Time, lookup, lookup-put, ok, err,
  Option-cases, arith, Text, Json, Fields, str, ==_refl,
}
use porfirium.Configuration.Documents.{internal_error}
use porfirium.Configuration.Revisions.{
  Revision, RevisionRecord, NewRevision, Request, Db, record_of, get_revision, create_revision,
  find_request, revision_of,
}
use porfirium.Configuration.Resolve.{
  Library, mapping_of, revision_response, respond, check_bodies, revision_create, revision_get,
}
use porfirium.Configuration.Effective.{GivesText}

module _ (read_jsonb : Fields → Json) where
  -- Any number of new revisions.
  pub data Later (digest : NewRevision → Digest) (d : Db) : Db → Type 0 where
    here : Later digest d d
    next :
        {m d' : Db} (key : Key) (p : NewRevision) (id : Uuid) (now : Time) (r : RevisionRecord)
        → Later digest d m
        → create_revision read_jsonb digest key p id now m ≡ ok (r, d')
        → Later digest d d'

  create_revision-lookup :
      (digest : NewRevision → Digest) (key : Key) (p : NewRevision) (id : Uuid) (now : Time)
      (d d' : Db) (k : Uuid) (v : Revision) {r : RevisionRecord}
      → create_revision read_jsonb digest key p id now d ≡ ok (r, d')
      → lookup k d.revisions ≡ some v
      → lookup k d'.revisions ≡ some v
  unfolding create_revision
  create_revision-lookup digest key p id now d d' k v e found = grind (arith, lookup-put)

  -- The revision that a key of an owner stands for, and the digest of its request.
  abbrev Recorded : Uuid → Key → Digest → RevisionRecord → Db → Type 0
  Recorded owner key sha r d =
      (q : Request) × (v : Revision) × (find_request owner key d.requests ≡ some q)
      × (q.request_sha256 ≡ sha)
      × (lookup q.revision_id d.revisions ≡ some v)
      × (v.owner_id ≡ owner)
      × (record_of read_jsonb q.revision_id v ≡ r)

  create_revision-Recorded :
      (digest : NewRevision → Digest) (key : Key) (p : NewRevision) (id : Uuid) (now : Time)
      (d d' : Db) (r : RevisionRecord)
      → create_revision read_jsonb digest key p id now d ≡ ok (r, d')
      → Recorded p.owner_id key (digest p) r d'
  unfolding create_revision get_revision find_request revision_of
  create_revision-Recorded digest key p id now d d' r e =
      elim (Option-cases (find_request p.owner_id key d.requests)) [
        | inl fresh ↦ (
          record {
            owner_id = p.owner_id;
            idempotency_key = key;
            request_sha256 = digest p;
            revision_id = id;
          },
          revision_of p now,
          ground arith,
          ground arith,
          grind (arith, lookup-put),
          refl,
          ground arith,
        )
        | inr (q, found) ↦ elim (Option-cases (lookup q.revision_id d.revisions)) [
          | inl absent ↦ absurd (ground arith)
          | inr (v, there) ↦
              (q, v, ground arith, ground arith, ground arith, ground arith, ground arith)
        ]
      ]

  create_revision-keeps :
      (digest : NewRevision → Digest) (key : Key) (p : NewRevision) (id : Uuid) (now : Time)
      (d d' : Db) (r : RevisionRecord) (owner : Uuid) (k : Key) (sha : Digest) (x : RevisionRecord)
      → create_revision read_jsonb digest key p id now d ≡ ok (r, d')
      → Recorded owner k sha x d
      → Recorded owner k sha x d'
  unfolding create_revision find_request
  create_revision-keeps digest key p id now d d' r owner k sha x e
        (q, v, found, same, there, owned, is) =
      (
        q,
        v,
        ground arith,
        same,
        create_revision-lookup digest key p id now d d' q.revision_id v e there,
        owned,
        is,
      )

  Later-keeps :
      {digest : NewRevision → Digest} {d d' : Db} (owner : Uuid) (k : Key) (sha : Digest)
      (x : RevisionRecord)
      → Later digest d d'
      → Recorded owner k sha x d
      → Recorded owner k sha x d'
  Later-keeps owner k sha x here h = h
  Later-keeps {digest} {d} {d'} owner k sha x (next {m = m} key p id now r earlier e) h =
      create_revision-keeps digest key p id now m d' r owner k sha x e
        (Later-keeps owner k sha x earlier h)

  Recorded-answer :
      (digest : NewRevision → Digest) (key : Key) (p : NewRevision) (id : Uuid) (now : Time)
      (d : Db) (r : RevisionRecord)
      → Recorded p.owner_id key (digest p) r d
      → create_revision read_jsonb digest key p id now d ≡ ok (r, d)
  unfolding create_revision get_revision
  Recorded-answer digest key p id now d r (q, v, found, same, there, owned, is) = ground arith

  -- A call that made a revision, repeated with the same key at any time and after any number of other new
  -- revisions, gives the same record, and nothing is stored, whatever the driver gives for a `jsonb`.
  pub create_revision_repeats :
      (digest : NewRevision → Digest) (key : Key) (p : NewRevision) (id id' : Uuid)
      (now now' : Time) (d m d' : Db) (r : RevisionRecord)
      → create_revision read_jsonb digest key p id now d ≡ ok (r, m)
      → Later digest m d'
      → create_revision read_jsonb digest key p id' now' d' ≡ ok (r, d')
  create_revision_repeats digest key p id id' now now' d m d' r e later =
      Recorded-answer digest key p id' now' d' r (
        Later-keeps p.owner_id key (digest p) r later
          (create_revision-Recorded digest key p id now d m r e))

module _ (l : Library) where
  revision_response-text :
      (r : RevisionRecord) (s : Text) → r.values ≡ str s → revision_response r ≡ err internal_error
  unfolding revision_response mapping_of
  revision_response-text r s is = rw is refl

  record_of-text :
      (id : Uuid) (v : Revision)
      → GivesText l.read_jsonb
      → revision_response (record_of l.read_jsonb id v) ≡ err internal_error
  unfolding record_of
  record_of-text id v text =
      let (s, is) = text v.values in revision_response-text (record_of l.read_jsonb id v) s is

  revision_create-answer :
      (digest : NewRevision → Digest) (key : Key) (p : NewRevision) (id : Uuid) (now : Time)
      (d m : Db) (r : RevisionRecord)
      → check_bodies l p ≡ ok tt
      → create_revision l.read_jsonb digest key p id now d ≡ ok (r, m)
      → revision_create l digest key p id now d ≡ (revision_response r, m)
  unfolding revision_create respond
  revision_create-answer digest key p id now d m r fits e = ground (arith, fits, e)

  revision_get-answer :
      (d : Db) (v : Revision) (r : RevisionRecord) (id : Uuid)
      → lookup id d.revisions ≡ some v
      → record_of l.read_jsonb id v ≡ r
      → revision_get l v.owner_id r.revision_id d ≡ revision_response r
  unfolding revision_get get_revision record_of
  revision_get-answer d v r id there is = rw (← is) (rw (there, ==_refl v.owner_id) refl)

  -- With a driver that gives text for a `jsonb`, a create of bodies within the bounds whose transaction commits is
  -- answered by an uncaught exception, though the database keeps what it committed; and so are the same request, sent
  -- again with the same key after any number of other new revisions, which then stores nothing, and every reading of
  -- the revision by its owner.
  pub revision_create_breaks :
      (digest : NewRevision → Digest) (key : Key) (p : NewRevision) (id id' : Uuid)
      (now now' : Time) (d m d' : Db) (r : RevisionRecord)
      → GivesText l.read_jsonb
      → check_bodies l p ≡ ok tt
      → create_revision l.read_jsonb digest key p id now d ≡ ok (r, m)
      → Later l.read_jsonb digest m d'
      → (revision_create l digest key p id now d ≡ (err internal_error, m))
        × (revision_create l digest key p id' now' d' ≡ (err internal_error, d'))
        × (revision_get l p.owner_id r.revision_id d' ≡ err internal_error)
  revision_create_breaks digest key p id id' now now' d m d' r text fits e later =
      let (q, v, found, same, there, owned, is) =
        Later-keeps l.read_jsonb p.owner_id key (digest p) r later
          (create_revision-Recorded l.read_jsonb digest key p id now d m r e) in
      let again =
        create_revision_repeats l.read_jsonb digest key p id id' now now' d m d' r e later in
      let broken : revision_response r ≡ err internal_error =
        ap revision_response (sym is) ∙ record_of-text q.revision_id v text in
      (
        revision_create-answer digest key p id now d m r fits e ∙ ap (λ x. (x, m)) broken,
        revision_create-answer digest key p id' now' d' d' r fits again ∙ ap (λ x. (x, d')) broken,
        ap (λ o. revision_get l o r.revision_id d') (sym owned)
            ∙ revision_get-answer d' v r q.revision_id there is
            ∙ broken,
      )
