-- ===== src/Identity/RoundTrip.antt =====
-- A token of tokens.py that is verified with the secret it was issued under.
use porfirium.Prelude.{
  ℕ, ◌<◌, ◌≡◌, ap, refl, ◌∙◌, some, Time, ok, ◌>>=◌, Text, codes, Fields, obj, nat, str, get,
  list_eq_refl, sort_keys, sort_fields, sorted_value, or_raise, get-sort_fields, arith,
}
use porfirium.Identity.Claims.{token_invalid, int_of}
use porfirium.Identity.Tokens.{
  Codec, seconds, decode, encode, issue_token, object_of, read_claims, check_claims, verify_token,
  split_dot,
}
use porfirium.Identity.Encoding.{Base64Laws, split_dot-append, decode-encode, encode-IsData}

-- The text of these claims is read back as these claims, with the keys in order.
abbrev pub Rereads : Codec → Fields → Type 0
Rereads c claims = c.loads (c.dumps (sort_keys (obj claims))) ≡ some (sort_keys (obj claims))

module _ (c : Codec) (laws : Base64Laws c) where
  read_claims-issued :
      (claims : Fields)
      → Rereads c claims
      → read_claims c (encode c (c.dumps (sort_keys (obj claims)))) ≡ ok (sort_fields claims)
  unfolding read_claims sort_keys
  read_claims-issued claims reread =
      rw (decode-encode c laws (c.dumps (sort_keys (obj claims))))
        (ap (λ o. or_raise o token_invalid >>= λ v. object_of v) reread)

  check_claims-issued :
      (claims : Fields) (audience : Text) (e : ℕ) (now : Time)
      → get (codes "aud") claims ≡ some (str audience)
      → get (codes "exp") claims ≡ some (nat e)
      → seconds now < e
      → check_claims c (sort_fields claims) audience now ≡ ok tt
  unfolding int_of sort_keys
  check_claims-issued claims audience e now aud exp early =
      let a : get (codes "aud") (sort_fields claims) ≡ some (str audience) =
        get-sort_fields (codes "aud") claims ∙ ap sorted_value aud in
      let x : get (codes "exp") (sort_fields claims) ≡ some (nat e) =
        get-sort_fields (codes "exp") claims ∙ ap sorted_value exp in
      ground (arith, list_eq_refl audience)

  verify_token-parts :
      (token secret audience : Text) (now : Time) (payload signature : Text) (claims : Fields)
      → split_dot token ≡ some (payload, signature)
      → decode c signature ≡ some (c.hmac_sha256 secret payload)
      → read_claims c payload ≡ ok claims
      → check_claims c claims audience now ≡ ok tt
      → verify_token c token secret audience now ≡ ok claims
  unfolding verify_token
  verify_token-parts token secret audience now payload signature claims split signed read checked =
      let same = list_eq_refl (c.hmac_sha256 secret payload) in
      rw (split, signed, same, read, checked) refl

  -- A token is verified with the secret it was issued under, for the audience its claims name and until the
  -- second at which they expire, and gives back the claims it was issued for, with their keys in
  -- order. Base64 is as its standard has it, and JSON gives back the claims.
  pub verify_token-issue_token :
      (claims : Fields) (secret audience : Text) (e : ℕ) (now : Time)
      → Rereads c claims
      → get (codes "aud") claims ≡ some (str audience)
      → get (codes "exp") claims ≡ some (nat e)
      → seconds now < e
      → verify_token c (issue_token c claims secret) secret audience now ≡ ok (sort_fields claims)
  unfolding issue_token
  verify_token-issue_token claims secret audience e now reread aud exp early =
      let text = c.dumps (sort_keys (obj claims)) in
      let split =
        split_dot-append (encode c text) (encode c (c.hmac_sha256 secret (encode c text)))
          (encode-IsData c laws text) in
      let signed = decode-encode c laws (c.hmac_sha256 secret (encode c text)) in
      let read = read_claims-issued claims reread in
      let checked = check_claims-issued claims audience e now aud exp early in
      verify_token-parts (issue_token c claims secret) secret audience now (encode c text)
        (encode c (c.hmac_sha256 secret (encode c text))) (sort_fields claims) split signed read
        checked
