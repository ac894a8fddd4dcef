-- ===== src/Identity/Revoked.antt =====
-- A grant that its user revoked (services/identity-delegation/identity_delegation/main.py).
use porfirium.Prelude.{
  ◌≡◌, ap, ◌∙◌, ◌⊎◌, refl, Table, ◌==◌, ==_refl, Bool-cases, inl, inr, true, Option, some, Uuid,
  Digest, Key, Time, is_some, lookup, update_where, lookup-put, lookup-update_where, ok, err,
  Result-cases, Option-cases, arith, Text,
}
use porfirium.Identity.Claims.{Problem}
use porfirium.Identity.Grants.{
  GrantRecord, NewGrant, Db, get_grant, create_grant, revoke_grant, revoked,
}
use porfirium.Identity.Service.{Service, ExchangeGrant, CreateGrant, grant_create, grant_revoke}
use porfirium.Identity.Exchange.{exchange_token}
use porfirium.Identity.Limits.{exchange_token_limits}

-- Any number of calls that change grants; an exchange changes none.
pub data Later (sha256 : NewGrant → Digest) (d : Db) : Db → Type 0 where
  here : Later sha256 d d
  creates :
      {m d' : Db} (body : CreateGrant) (user : Uuid) (key : Key) (id : Uuid) (now : Time)
      (r : Uuid × GrantRecord)
      → Later sha256 d m
      → grant_create sha256 body user key id now m ≡ ok (r, d')
      → Later sha256 d d'
  revokes :
      {m d' : Db} (id user : Uuid) (now : Time)
      → Later sha256 d m
      → grant_revoke id user now m ≡ ok d'
      → Later sha256 d d'

abbrev IsRevoked : Uuid → Db → Type 0
IsRevoked id d = (g : GrantRecord) × (lookup id d.grants ≡ some g) × (is_some g.revoked_at ≡ true)

grant_create-IsRevoked :
    (sha256 : NewGrant → Digest) (body : CreateGrant) (user : Uuid) (key : Key) (id : Uuid)
    (now : Time) (d d' : Db) (r : Uuid × GrantRecord) (k : Uuid)
    → grant_create sha256 body user key id now d ≡ ok (r, d')
    → IsRevoked k d
    → IsRevoked k d'
unfolding grant_create create_grant
grant_create-IsRevoked sha256 body user key id now d d' r k e (g, found, gone) =
    (g, grind (arith, lookup-put), gone)

-- What a revocation does to the stored grants.
grant_revoke-parts :
    (id user : Uuid) (now : Time) (d d' : Db)
    → grant_revoke id user now d ≡ ok d'
    → (g : GrantRecord) × (lookup id d.grants ≡ some g)
      × (d'.grants ≡ update_where id (λ h. true) (revoked now) d.grants)
unfolding grant_revoke revoke_grant get_grant
grant_revoke-parts id user now d d' e = elim (Option-cases (lookup id d.grants)) [
  | inl absent ↦ ground arith
  | inr (g, found) ↦ (g, found, ground arith)
]

-- A row of the table in which the grant `id` is revoked.
revoked_row :
    (id k : Uuid) (now : Time) (t : Table GrantRecord) (g : GrantRecord)
    → lookup k t ≡ some g
    → (id == k ≡ true) ⊎ (is_some g.revoked_at ≡ true)
    → (v : GrantRecord) × (lookup k (update_where id (λ h. true) (revoked now) t) ≡ some v)
      × (is_some v.revoked_at ≡ true)
revoked_row id k now t g found either = elim (Bool-cases (id == k)) [
  | inl same ↦
      (revoked now g, ground (arith, lookup-update_where id k (λ h. true) (revoked now) t), refl)
  | inr other ↦
      (g, ground (arith, lookup-update_where id k (λ h. true) (revoked now) t), ground arith)
]

grant_revoke-IsRevoked :
    (id user : Uuid) (now : Time) (d d' : Db) (k : Uuid)
    → grant_revoke id user now d ≡ ok d'
    → IsRevoked k d
    → IsRevoked k d'
grant_revoke-IsRevoked id user now d d' k e (g, found, gone) =
    let (h, there, grants) = grant_revoke-parts id user now d d' e in
    let (v, row, dead) = revoked_row id k now d.grants g found (inr gone) in
    (v, ap (lookup k) grants ∙ row, dead)

grant_revoke-revokes :
    (id user : Uuid) (now : Time) (d d' : Db) → grant_revoke id user now d ≡ ok d' → IsRevoked id d'
grant_revoke-revokes id user now d d' e =
    let (h, there, grants) = grant_revoke-parts id user now d d' e in
    let (v, row, dead) = revoked_row id id now d.grants h there (inl (==_refl id)) in
    (v, ap (lookup id) grants ∙ row, dead)

Later-IsRevoked :
    {sha256 : NewGrant → Digest} {d d' : Db} (k : Uuid)
    → Later sha256 d d'
    → IsRevoked k d
    → IsRevoked k d'
Later-IsRevoked k here h = h
Later-IsRevoked {sha256} {d} {d'} k (creates {m = m} body user key id now r earlier e) h =
    grant_create-IsRevoked sha256 body user key id now m d' r k e (Later-IsRevoked k earlier h)
Later-IsRevoked {sha256} {d} {d'} k (revokes {m = m} id user now earlier e) h =
    grant_revoke-IsRevoked id user now m d' k e (Later-IsRevoked k earlier h)

-- Once its user has revoked a grant, no token is exchanged on it any more, whatever is created and
-- revoked later, whoever asks and at whatever time.
pub grant_revoke_final :
    (s : Service) {sha256 : NewGrant → Digest} (id user : Uuid) (now : Time) (d m d' : Db)
    → grant_revoke id user now d ≡ ok m
    → Later sha256 m d'
    → (body : ExchangeGrant) (authorization capability : Option Text) (jti : Uuid) (t : Time)
    → (p : Problem) × (exchange_token s id body authorization capability jti t d' ≡ err p)
grant_revoke_final s id user now d m d' e later body authorization capability jti t =
    elim (Result-cases (exchange_token s id body authorization capability jti t d')) [
      | inr refused ↦ refused
      | inl (token, exchanged) ↦
          let (g, found, live, early, within, short, asked, allowed) =
            exchange_token_limits s id body authorization capability jti t d' token exchanged in
          let (g', found', gone) =
            Later-IsRevoked id later (grant_revoke-revokes id user now d m e) in
          ground arith
    ]
